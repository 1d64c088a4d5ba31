-- ===== src/Multimap/Reads.antt =====
-- GetAllData of the multimap.
use hcl.Base.{◌≡◌, ◌<◌, refl, ap, Bool, List, [], ◌∷◌, some, length, hits}
use hcl.Container.{Container, Network}
use hcl.Container.Gather.{all_of, gather-all_of}
use hcl.HashKey.{HashKey}
use hcl.Multimap.{MultiContainer, copy_from, local_get_all_data, get_all_data}

module _ {K V : Type 0} ⦃key : HashKey K⦄ (C : MultiContainer K V) where
  copy_from-id : (es : List (K × V)) → copy_from C es ≡ es
  unfolding copy_from
  copy_from-id [] = refl
  copy_from-id (e ∷ es) = ap (◌∷◌ e) (copy_from-id es)

  -- GetAllData, by a client whose own server is one of the servers, returns the elements of all servers,
  -- no element more or less often than in them together, and changes nothing.
  pub get_all_data-everything :
      (net : Network C.Store) (c : Container) (servers : List C.Store)
      → c.num_servers ≡ length servers
      → c.my_server_idx < length servers
      → (out : List (K × V)) × (get_all_data C net c servers ≡ some (out, servers))
        × ((p : K × V → Bool) → hits p out ≡ hits p (all_of C.elements servers))
  unfolding get_all_data local_get_all_data
  get_all_data-everything net c servers count here =
      gather-all_of c (local_get_all_data C) (net.rpc (local_get_all_data C)) tt C.elements
        (λ s. rw (copy_from-id (C.elements s)) refl) servers count here
