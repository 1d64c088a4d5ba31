-- ===== src/UnorderedMap/Reads.antt =====
-- GetAllData of the unordered map.
use hcl.Base.{◌≡◌, ◌<◌, refl, ap, Bool, List, [], ◌∷◌, some, length, hits}
use hcl.Container.{Container, Network}
use hcl.Container.Gather.{all_of, gather-all_of}
use hcl.HashKey.{HashKey}
use hcl.UnorderedMap.{HashMap, copy_from, local_get_all_data, get_all_data}

module _ {K V : Type 0} ⦃key : HashKey K⦄ (H : HashMap K V) (value_default : V) where
  copy_from-id : (es : List (K × V)) → copy_from H value_default es ≡ es
  unfolding copy_from
  copy_from-id [] = refl
  copy_from-id ((k, v) ∷ es) = ap (◌∷◌ (k, v)) (copy_from-id es)

  -- the elements of one server's map
  abbrev pub pairs : H.Store → List (K × V)
  pairs s = H.elements s

  -- GetAllData, by a client whose own server is one of the servers, returns the elements of all servers,
  -- no element more or less often than in them together, and changes nothing.
  pub get_all_data-pairs :
      (net : Network H.Store) (c : Container) (servers : List H.Store)
      → c.num_servers ≡ length servers
      → c.my_server_idx < length servers
      → (out : List (K × V)) × (get_all_data H value_default net c servers ≡ some (out, servers))
        × ((p : K × V → Bool) → hits p out ≡ hits p (all_of pairs servers))
  unfolding get_all_data local_get_all_data
  get_all_data-pairs net c servers count here =
      let method = local_get_all_data H value_default in
      gather-all_of c method (net.rpc method) tt pairs (λ s. rw (copy_from-id (H.elements s)) refl)
        servers count here
