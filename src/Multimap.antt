-- ===== src/Multimap.antt =====
-- include/hcl/multimap/multimap.cpp: the class multimap. The Boost multimap in a server's segment comes
-- with what its documentation says, and `value_default` is MappedType(). Store has the lists of values,
-- Single the local methods, Series proves the routed calls, Reads and Search the calls that ask all
-- servers; Ascending, InFront and OneServer have what Search needs of one server.
mod Store
pub mod Single
pub mod Series
pub mod Listed
pub mod Reads
pub mod Ascending
pub mod InFront
pub mod OneServer
pub mod Search
unfoldable pub use Store.{values_in}
use hcl.Container.Names.{Binding, Method, codes}
use hcl.Base.{
  ℕ, zero, suc, ◌≤◌, ◌||◌, not, ◌==◌, ◌>>=◌, get_elem?, drop, ◌≡◌, Bool, true, false, List, [], ◌∷◌,
  ◌++◌, Option, some, none, length, ltb, if◌then◌else◌,
}
use hcl.Container.{Container, Network, routed, gather}
use hcl.HashKey.{HashKey, ◌≈◌}

-- `find` gives an element with the key, any one of them, and `erase_found` erases that element;
-- `elements` is what an iterator meets from begin() to end().
pub record MultiContainer (K V : Type 0) ⦃key : HashKey K⦄ : Type 1 where
  pub Store : Type 0
  pub empty : Store
  pub elements : Store → List (K × V)
  pub find : K → Store → Option (K × V)
  pub erase_found : K → Store → Store
  pub insert : K × V → Store → Store
  pub erase : K → Store → ℕ × Store
  pub lower_bound : K → Store → ℕ
  pub lower_bound-le : (k : K) (s : Store) → lower_bound k s ≤ length (elements s)
  pub elements-empty : elements empty ≡ []
  pub find_none : (k : K) (s : Store) → values_in k (elements s) ≡ [] → find k s ≡ none
  pub find_some :
      (k : K) (s : Store) (v : V) (rest : List V)
      → values_in k (elements s) ≡ v ∷ rest
      → (j : K) × (w : V) × (before : List V) × (after : List V) × (find k s ≡ some (j, w))
        × (values_in k (elements s) ≡ before ++ (w ∷ after))
        × (values_in k (elements (erase_found k s)) ≡ before ++ after)
  pub erase_found-other :
      (k : K) (s : Store) (q : K)
      → (k ≈ q) ≡ false
      → values_in q (elements (erase_found k s)) ≡ values_in q (elements s)
  pub values-insert :
      (k : K) (v : V) (s : Store) (q : K)
      → values_in q (elements (insert (k, v) s))
        ≡ (if k ≈ q then values_in q (elements s) ++ (v ∷ []) else values_in q (elements s))
  pub erased : (k : K) (s : Store) → (erase k s).0 ≡ length (values_in k (elements s))
  pub values-erase :
      (k : K) (s : Store) (q : K)
      → values_in q (elements (erase k s).1) ≡ (if k ≈ q then [] else values_in q (elements s))

module _ {K V : Type 0} ⦃key : HashKey K⦄ (C : MultiContainer K V) where
  -- the part of LocalPut before its insertion
  pub make_room : K → C.Store → C.Store
  make_room k s = elim (C.find k s) [ none ↦ s | some e ↦ C.erase_found k s ]

  pub local_put : K × V → C.Store → Option (Bool × C.Store)
  unfolding make_room
  local_put (k, value) s = some (true, C.insert (k, value) (make_room k s))

  pub local_get : V → K → C.Store → Option ((Bool × V) × C.Store)
  local_get value_default k s = some (
    elim (C.find k s) as (λ _. Bool × V) [
      | none ↦ (false, value_default)
      | some (j, v) ↦ (true, v)
    ],
    s,
  )

  pub local_erase : V → K → C.Store → Option ((Bool × V) × C.Store)
  local_erase value_default k s = let (n, s') = C.erase k s in some ((ltb 0 n, value_default), s')

  -- LocalContainsInServer; `covers` is the method Contains of the key type, and an iterator is its distance
  -- from begin()
  module _ (covers : K → K → Bool) where
    abbrev pub related : K → K × V → Bool
    related k (j, v) = covers k j || covers j k

    -- the loop
    pub collect : K → List (K × V) → List (K × V)
    collect k [] = []
    collect k (e ∷ es) = let rest = collect k es in if not (related k e) then [] else e ∷ rest

    pub step_back : K → C.Store → ℕ → Option ℕ
    step_back k s zero = some 0
    step_back k s (suc i) = do
      (j, v) ← get_elem? (C.elements s) i
      some (if not (covers k j) then suc i else i)

    pub local_contains : K → C.Store → Option (List (K × V) × C.Store)
    unfolding collect step_back
    local_contains k s =
        let size = length (C.elements s) in
        let lower_bound = C.lower_bound k s in
        if size == 0
        then some ([], s)
        else (if size == 1
            then (get_elem? (C.elements s) 0 >>= λ e. some (e ∷ [], s))
            else (if lower_bound == size
                then some ([], s)
                else (step_back k s lower_bound >>= λ i.
                    some (collect k (drop i (C.elements s)), s))))

  -- the loop of LocalGetAllDataInServer
  pub copy_from : List (K × V) → List (K × V)
  copy_from [] = []
  copy_from (e ∷ es) = e ∷ copy_from es

  pub local_get_all_data : Unit {0} → C.Store → Option (List (K × V) × C.Store)
  unfolding copy_from
  local_get_all_data _ s = some (copy_from (C.elements s), s)

  module _ (net : Network C.Store) where
    pub put : Container → List C.Store → K × V → Option (Bool × List C.Store)
    unfolding local_put
    put c servers (k, value) =
        routed c local_put (net.rpc local_put) servers (key.hash k) (k, value)

    pub get : V → Container → List C.Store → K → Option ((Bool × V) × List C.Store)
    unfolding local_get
    get value_default c servers k =
        routed c (local_get value_default) (net.rpc (local_get value_default)) servers (key.hash k)
          k

    pub erase : V → Container → List C.Store → K → Option ((Bool × V) × List C.Store)
    unfolding local_erase
    erase value_default c servers k =
        routed c (local_erase value_default) (net.rpc (local_erase value_default)) servers
          (key.hash k) k

    pub contains :
        (covers : K → K → Bool)
        → Container
        → List C.Store
        → K
        → Option (List (K × V) × List C.Store)
    unfolding local_contains
    contains covers c servers k =
        gather c (local_contains covers) (net.rpc (local_contains covers)) servers k

    pub get_all_data : Container → List C.Store → Option (List (K × V) × List C.Store)
    unfolding local_get_all_data
    get_all_data c servers = gather c local_get_all_data (net.rpc local_get_all_data) servers tt

-- what bind_functions binds, and what the remote calls name, each with the method of its local branch
abbrev pub bindings : List Binding
bindings =
    (codes "Put", Method.thallium_local_put)
    ∷ (codes "Get", Method.thallium_local_get)
    ∷ (codes "Erase", Method.thallium_local_erase)
    ∷ (codes "GetAllData", Method.thallium_local_get_all_data_in_server)
    ∷ (codes "Contains", Method.thallium_local_contains_in_server)
    ∷ []

abbrev pub remote_calls : List Binding
remote_calls =
    (codes "Put", Method.thallium_local_put)
    ∷ (codes "Get", Method.thallium_local_get)
    ∷ (codes "Erase", Method.thallium_local_erase)
    ∷ (codes "GetAllData", Method.thallium_local_get_all_data_in_server)
    ∷ (codes "Contains", Method.thallium_local_contains_in_server)
    ∷ []
