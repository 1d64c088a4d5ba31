-- ===== src/Set.antt =====
-- include/hcl/set/set.cpp: the class set. `C` is the Boost set in a server's segment, `net` the network,
-- and `key_default` is KeyType(). Series proves the routed calls, Reads the calls that read whole segments.
pub mod Series
pub mod Reads
use hcl.Container.Names.{Binding, Method, codes}
use hcl.Base.{
  ℕ, zero, suc, ◌+◌, Bool, true, false, not, List, [], ◌∷◌, Option, some, none, is_some, length,
  get_elem?, if◌then◌else◌, ltb, ◌>>=◌, u16,
}
use hcl.Container.{Container, Network, call, routed, gather, is_local_key, run_at}
use hcl.HashKey.{HashKey, SortKey, ◌≺◌}
use hcl.Sorted.{SortedContainer}
use hcl.Sorted.Range.{local_contains_in_server}

module _ {K : Type 0} ⦃key : HashKey K⦄ ⦃sort : SortKey K⦄
    (C : SortedContainer {K = K} (λ (k : K). k)) where
  pub local_put : K → C.Store → Option (Bool × C.Store)
  local_put k s = some (true, C.insert k s)

  pub local_get : K → C.Store → Option (Bool × C.Store)
  local_get k s = some (if is_some (C.find k s) then true else false, s)

  pub local_erase : K → C.Store → Option (Bool × C.Store)
  local_erase k s = let (n, s') = C.erase k s in some (ltb 0 n, s')

  pub local_contains : K × K → C.Store → Option (List K × C.Store)
  local_contains (key_start, key_end) s = do
    final_values ← local_contains_in_server C (λ x y. not (x ≺ y)) s key_start key_end
    some (final_values, s)

  -- `while (lower_bound != end()) { ...; lower_bound++; }`
  pub copy_from : List K → List K
  copy_from [] = []
  copy_from (k ∷ ks) = k ∷ copy_from ks

  pub local_get_all_data : Unit {0} → C.Store → Option (List K × C.Store)
  unfolding copy_from
  local_get_all_data _ s = some (copy_from (C.elements s), s)

  pub local_seek_first : K → Unit {0} → C.Store → Option ((Bool × K) × C.Store)
  local_seek_first key_default _ s =
      if ltb 0 (length (C.elements s))
      then (get_elem? (C.elements s) 0 >>= λ value. some ((true, value), s))
      else some ((false, key_default), s)

  -- the loop of LocalSeekFirstN at iteration `i`: the last `i`, and the keys
  pub seek_walk : ℕ → ℕ → List K → ℕ × List K
  seek_walk n i [] = (i, [])
  seek_walk n i (k ∷ ks) =
      let (last, keys) = seek_walk n (i + 1) ks in if ltb i n then (last, k ∷ keys) else (i, [])

  pub local_seek_first_n : ℕ → C.Store → Option ((Bool × List K) × C.Store)
  unfolding seek_walk
  local_seek_first_n n s = let (i, keys) = seek_walk n 0 (C.elements s) in some ((ltb 0 i, keys), s)

  pub local_pop_first : K → Unit {0} → C.Store → Option ((Bool × K) × C.Store)
  local_pop_first key_default _ s =
      if ltb 0 (length (C.elements s))
      then (get_elem? (C.elements s) 0 >>= λ value. some ((true, value), C.erase_begin s))
      else some ((false, key_default), s)

  pub local_size : Unit {0} → C.Store → Option (ℕ × C.Store)
  local_size _ s = some (length (C.elements s), s)

  module _ (net : Network C.Store) where
    pub put : Container → List C.Store → K → Option (Bool × List C.Store)
    unfolding local_put
    put c servers k = routed c local_put (net.rpc local_put) servers (key.hash k) k

    pub get : Container → List C.Store → K → Option (Bool × List C.Store)
    unfolding local_get
    get c servers k = routed c local_get (net.rpc local_get) servers (key.hash k) k

    pub erase : Container → List C.Store → K → Option (Bool × List C.Store)
    unfolding local_erase
    erase c servers k = routed c local_erase (net.rpc local_erase) servers (key.hash k) k

    pub contains : Container → List C.Store → K × K → Option (List K × List C.Store)
    contains c servers range = gather c local_contains (net.rpc local_contains) servers range

    pub get_all_data : Container → List C.Store → Option (List K × List C.Store)
    get_all_data c servers = gather c local_get_all_data (net.rpc local_get_all_data) servers tt

    -- `key_int` is a uint16_t that the caller gives
    pub seek_first : K → Container → List C.Store → ℕ → Option ((Bool × K) × List C.Store)
    seek_first key_default c servers key_int =
        call c (local_seek_first key_default) (net.rpc (local_seek_first key_default)) servers
          key_int tt

    -- none: a remote call, since no server binds "_SeekFirstN"
    pub seek_first_n : Container → List C.Store → ℕ → ℕ → Option ((Bool × List K) × List C.Store)
    seek_first_n c servers key_int n =
        if is_local_key c key_int then run_at local_seek_first_n servers c.my_server_idx n else none

    pub pop_first : K → Container → List C.Store → ℕ → Option ((Bool × K) × List C.Store)
    pop_first key_default c servers key_int =
        call c (local_pop_first key_default) (net.rpc (local_pop_first key_default)) servers key_int
          tt

    pub size : Container → List C.Store → ℕ → Option (ℕ × List C.Store)
    size c servers key_int = call c local_size (net.rpc local_size) servers key_int tt

-- what bind_functions binds, and what the remote calls name, each with the method of its local branch
abbrev pub bindings : List Binding
bindings =
    (codes "Put", Method.thallium_local_put)
    ∷ (codes "Get", Method.thallium_local_get)
    ∷ (codes "Erase", Method.thallium_local_erase)
    ∷ (codes "GetAllData", Method.thallium_local_get_all_data_in_server)
    ∷ (codes "Contains", Method.thallium_local_contains_in_server)
    ∷ (codes "SeekFirst", Method.thallium_local_seek_first)
    ∷ (codes "PopFirst", Method.thallium_local_pop_first)
    ∷ (codes "Size", Method.thallium_local_size)
    ∷ []

abbrev pub remote_calls : List Binding
remote_calls =
    (codes "Put", Method.thallium_local_put)
    ∷ (codes "Get", Method.thallium_local_get)
    ∷ (codes "Erase", Method.thallium_local_erase)
    ∷ (codes "Contains", Method.thallium_local_contains_in_server)
    ∷ (codes "GetAllData", Method.thallium_local_get_all_data_in_server)
    ∷ (codes "SeekFirst", Method.thallium_local_seek_first)
    ∷ (codes "SeekFirstN", Method.thallium_local_seek_first_n)
    ∷ (codes "PopFirst", Method.thallium_local_pop_first)
    ∷ (codes "Size", Method.thallium_local_size)
    ∷ []
