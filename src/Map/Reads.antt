-- ===== src/Map/Reads.antt =====
-- The calls of the map that read all segments.
use hcl.Base.{◌≡◌, ◌<◌, refl, ap, Bool, List, [], ◌∷◌, some, length, hits}
use hcl.Container.{Container, Network}
use hcl.Container.Gather.{all_of, gather-all_of}
use hcl.HashKey.{HashKey, SortKey, ◌≺◌}
use hcl.Sorted.{SortedContainer}
use hcl.Sorted.Range.{only, local_contains-only}
use hcl.Map.{first, copy_from, local_contains, local_get_all_data, contains, get_all_data}

module _ {K V : Type 0} ⦃key : HashKey K⦄ ⦃sort : SortKey K⦄
    (C : SortedContainer {K = K} (first {K = K} {V = V})) where
  copy_from-id : (es : List (K × V)) → copy_from C es ≡ es
  unfolding copy_from
  copy_from-id [] = refl
  copy_from-id (e ∷ es) = ap (◌∷◌ e) (copy_from-id es)

  -- what one server answers to a search for a range: the elements of the range in order; a single element
  -- is only tested to lie above the start
  abbrev pub entries_of : K × K → C.Store → List (K × V)
  entries_of (key_start, key_end) s = only C (λ x y. y ≺ x) key_start key_end (C.elements s)

  -- Contains, by a client whose own server is one of the servers, returns the answers of all servers to
  -- the range, no element more or less often than in them together, and changes nothing.
  pub contains-entries_of :
      (net : Network C.Store) (c : Container) (servers : List C.Store) (range : K × K)
      → c.num_servers ≡ length servers
      → c.my_server_idx < length servers
      → (out : List (K × V)) × (contains C net c servers range ≡ some (out, servers))
        × ((p : K × V → Bool) → hits p out ≡ hits p (all_of (entries_of range) servers))
  unfolding contains local_contains
  contains-entries_of net c servers (a, b) count here =
      gather-all_of c (local_contains C) (net.rpc (local_contains C)) (a, b) (entries_of (a, b))
        (λ s. rw (local_contains-only C (λ x y. y ≺ x) s a b) refl) servers count here

  -- GetAllData, by a client whose own server is one of the servers, returns the elements of all servers,
  -- no element more or less often than in them together, and changes nothing.
  pub get_all_data-entries :
      (net : Network C.Store) (c : Container) (servers : List C.Store)
      → c.num_servers ≡ length servers
      → c.my_server_idx < length servers
      → (out : List (K × V)) × (get_all_data C net c servers ≡ some (out, servers))
        × ((p : K × V → Bool) → hits p out ≡ hits p (all_of C.elements servers))
  unfolding get_all_data local_get_all_data
  get_all_data-entries net c servers count here =
      gather-all_of c (local_get_all_data C) (net.rpc (local_get_all_data C)) tt C.elements
        (λ s. rw (copy_from-id (C.elements s)) refl) servers count here
