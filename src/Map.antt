-- ===== src/Map.antt =====
-- include/hcl/map/map.cpp: the class map. `C` is the Boost map in a server's segment, `net` the network,
-- and `value_default` is MappedType(). Series proves the routed calls, Reads the calls that read whole
-- segments.
pub mod Series
pub mod Reads
use hcl.Container.Names.{Binding, Method, codes}
use hcl.Base.{ℕ, Bool, true, false, List, [], ◌∷◌, Option, some, ltb, none, ◌>>=◌}
use hcl.Container.{Container, Network, routed, gather}
use hcl.HashKey.{HashKey, SortKey, ◌≺◌}
use hcl.Sorted.{SortedContainer}
use hcl.Sorted.Range.{local_contains_in_server}

module _ {K V : Type 0} where
  -- the key of an element of the Boost map
  abbrev pub first : K × V → K
  first (k, v) = k

module _ {K V : Type 0} ⦃key : HashKey K⦄ ⦃sort : SortKey K⦄
    (C : SortedContainer {K = K} (first {K = K} {V = V})) where
  pub local_put : K × V → C.Store → Option (Bool × C.Store)
  local_put (k, value) s = some (true, C.insert_or_assign (k, value) s)

  pub local_get : V → K → C.Store → Option ((Bool × V) × C.Store)
  local_get value_default k s = some (
    elim (C.find k s) as (λ _. Bool × V) [
      | none ↦ (false, value_default)
      | some (j, v) ↦ (true, v)
    ],
    s,
  )

  pub local_erase : V → K → C.Store → Option ((Bool × V) × C.Store)
  local_erase value_default k s = let (n, s') = C.erase k s in some ((ltb 0 n, value_default), s')

  pub local_contains : K × K → C.Store → Option (List (K × V) × C.Store)
  local_contains (key_start, key_end) s = do
    final_values ← local_contains_in_server C (λ x y. y ≺ x) s key_start key_end
    some (final_values, s)

  -- `while (lower_bound != end()) { ...; lower_bound++; }`
  pub copy_from : List (K × V) → List (K × V)
  copy_from [] = []
  copy_from (e ∷ es) = e ∷ copy_from es

  pub local_get_all_data : Unit {0} → C.Store → Option (List (K × V) × C.Store)
  unfolding copy_from
  local_get_all_data _ s = some (copy_from (C.elements s), s)

  module _ (net : Network C.Store) where
    pub put : Container → List C.Store → K × V → Option (Bool × List C.Store)
    put c servers (k, value) =
        routed c local_put (net.rpc local_put) servers (key.hash k) (k, value)

    pub get : V → Container → List C.Store → K → Option ((Bool × V) × List C.Store)
    get value_default c servers k =
        routed c (local_get value_default) (net.rpc (local_get value_default)) servers (key.hash k)
          k

    pub erase : V → Container → List C.Store → K → Option ((Bool × V) × List C.Store)
    erase value_default c servers k =
        routed c (local_erase value_default) (net.rpc (local_erase value_default)) servers
          (key.hash k) k

    pub contains : Container → List C.Store → K × K → Option (List (K × V) × List C.Store)
    contains c servers range = gather c local_contains (net.rpc local_contains) servers range

    pub get_all_data : Container → List C.Store → Option (List (K × V) × List C.Store)
    get_all_data c servers = gather c local_get_all_data (net.rpc local_get_all_data) servers tt

-- what bind_functions binds, and what the remote calls name, each with the method of its local branch
abbrev pub bindings : List Binding
bindings =
    (codes "Put", Method.thallium_local_put)
    ∷ (codes "Get", Method.thallium_local_get)
    ∷ (codes "Erase", Method.thallium_local_erase)
    ∷ (codes "GetAllData", Method.thallium_local_get_all_data_in_server)
    ∷ (codes "Contains", Method.thallium_local_contains_in_server)
    ∷ []

abbrev pub remote_calls : List Binding
remote_calls =
    (codes "Put", Method.thallium_local_put)
    ∷ (codes "Get", Method.thallium_local_get)
    ∷ (codes "Erase", Method.thallium_local_erase)
    ∷ (codes "GetAllData", Method.thallium_local_get_all_data_in_server)
    ∷ (codes "Contains", Method.thallium_local_contains_in_server)
    ∷ []
