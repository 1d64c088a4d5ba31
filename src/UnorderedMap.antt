-- ===== src/UnorderedMap.antt =====
-- include/hcl/unordered_map/unordered_map.cpp: the class unordered_map. The Boost map in a server's
-- segment comes with what its documentation says, and `value_default` is MappedType(). The size that each
-- process counts in its own object, size_occupied, is read by no method and is left out. Put takes the hash modulo 2^16 before the remainder, and Get and Erase
-- do not: Series shows when the calls agree and where not.
pub mod Series
pub mod Table
pub mod Reads
use hcl.Container.Names.{Binding, Method, codes}
use hcl.Base.{
  ◌-◌, ℕ, ◌+◌, ◌≡◌, refl, Bool, true, false, List, [], ◌∷◌, Option, some, none, is_some,
  if◌then◌else◌, u16, u64, uint64_max, ◌>>=◌, length, mod?, not,
}
use hcl.Container.{Container, Network, Rpc, call, routed, gather}
use hcl.HashKey.{HashKey, ◌≈◌}

-- `insert_or_assign` tells whether the key was new
pub record HashMap (K V : Type 0) ⦃key : HashKey K⦄ : Type 1 where
  pub Store : Type 0
  pub empty : Store
  pub elements : Store → List (K × V)
  pub find : K → Store → Option V
  pub insert_or_assign : K → V → Store → Bool × Store
  pub erase : K → Store → Store
  pub find-empty : (k : K) → find k empty ≡ none
  pub find_congr : (k q : K) (s : Store) → (k ≈ q) ≡ true → find k s ≡ find q s
  pub inserted : (k : K) (v : V) (s : Store) → (insert_or_assign k v s).0 ≡ not (is_some (find k s))
  pub find-insert_or_assign :
      (k : K) (v : V) (s : Store) (q : K)
      → find q (insert_or_assign k v s).1 ≡ (if k ≈ q then some v else find q s)
  pub find-erase :
      (k : K) (s : Store) (q : K) → find q (erase k s) ≡ (if k ≈ q then none else find q s)

-- `(uint16_t)keyHash(key) % num_servers`
pub put_server : Container → ℕ → Option ℕ
put_server c key_hash = mod? (u16 key_hash) c.num_servers

module _ {K V : Type 0} ⦃key : HashKey K⦄ (H : HashMap K V) where
  module _ (value_default : V) where
    pub local_put : K × V → H.Store → Option (Bool × H.Store)
    local_put (k, value) s = let (new, m) = H.insert_or_assign k value s in some (true, m)

    pub local_get : K → H.Store → Option ((Bool × V) × H.Store)
    local_get k s = some (
      elim (H.find k s) as (λ _. Bool × V) [ none ↦ (false, value_default) | some v ↦ (true, v) ],
      s,
    )

    pub local_erase : K → H.Store → Option ((Bool × V) × H.Store)
    local_erase k s = elim (H.find k s) [
      | none ↦ some ((false, value_default), s)
      | some v ↦ some ((true, value_default), H.erase k s)
    ]

    -- the loop of LocalGetAllDataInServer, which an empty map does not enter
    pub copy_from : List (K × V) → List (K × V)
    copy_from [] = []
    copy_from ((k, v) ∷ es) = (k, v) ∷ copy_from es

    pub local_get_all_data : Unit {0} → H.Store → Option (List (K × V) × H.Store)
    unfolding copy_from
    local_get_all_data _ s = some (copy_from (H.elements s), s)

    module _ (net : Network H.Store) where
      pub put : Container → List H.Store → K × V → Option (Bool × List H.Store)
      unfolding put_server
      put c servers (k, value) = put_server c (key.hash k) >>= λ key_int.
          call c local_put (net.rpc local_put) servers key_int (k, value)

      pub get : Container → List H.Store → K → Option ((Bool × V) × List H.Store)
      get c servers k = routed c local_get (net.rpc local_get) servers (key.hash k) k

      pub erase : Container → List H.Store → K → Option ((Bool × V) × List H.Store)
      erase c servers k = routed c local_erase (net.rpc local_erase) servers (key.hash k) k

      pub get_all_data : Container → List H.Store → Option (List (K × V) × List H.Store)
      get_all_data c servers = gather c local_get_all_data (net.rpc local_get_all_data) servers tt

-- what bind_functions binds, and what the remote calls name, each with the method of its local branch
abbrev pub bindings : List Binding
bindings =
    (codes "Put", Method.thallium_local_put)
    ∷ (codes "Get", Method.thallium_local_get)
    ∷ (codes "Erase", Method.thallium_local_erase)
    ∷ (codes "GetAllData", Method.thallium_local_get_all_data_in_server)
    ∷ []

abbrev pub remote_calls : List Binding
remote_calls =
    (codes "Put", Method.thallium_local_put)
    ∷ (codes "Get", Method.thallium_local_get)
    ∷ (codes "Erase", Method.thallium_local_erase)
    ∷ (codes "GetAllData", Method.thallium_local_get_all_data_in_server)
    ∷ []
