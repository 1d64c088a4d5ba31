-- ===== src/Set/Series.antt =====
-- Put, Get and Erase of the set, by clients anywhere: the servers' sets together are one set.
use hcl.Base.{
  ℕ, ◌≡◌, ◌≤◌, ◌<◌, refl, sym, ◌∙◌, Bool, true, false, List, Option, some, is_some, length, arith,
}
use hcl.Container.{Container, Network}
use hcl.Container.Routed.{global, routed-global}
use hcl.Container.Series.{Step, Clients, send_all, answers, send_all-answers}
use hcl.HashKey.{HashKey, SortKey}
use hcl.Sorted.{find_congr, SortedContainer}
use hcl.Set.{local_put, local_get, local_erase, put, get, erase}

pub data SetCall (K : Type 0) : Type 0 where
  put_call : K → SetCall K
  get_call : K → SetCall K
  erase_call : K → SetCall K

module _ {K : Type 0} where
  abbrev pub key_of : SetCall K → K
  key_of (put_call k) = k
  key_of (get_call k) = k
  key_of (erase_call k) = k

  -- what each call answers, where the key was a member or was not, and whether it is one afterwards
  abbrev pub answer : SetCall K → Bool → Bool
  answer (put_call k) b = true
  answer (get_call k) b = b
  answer (erase_call k) b = b

  abbrev pub member_after : SetCall K → Bool → Bool
  member_after (put_call k) b = true
  member_after (get_call k) b = b
  member_after (erase_call k) b = false

module _ {K : Type 0} ⦃key : HashKey K⦄ ⦃sort : SortKey K⦄
    (C : SortedContainer {K = K} (λ (k : K). k)) where
  abbrev pub member : C.Store → K → Bool
  member s k = is_some (C.find k s)

  abbrev pub send :
      Network C.Store → Container → List C.Store → SetCall K → Option (Bool × List C.Store)
  send net c servers (put_call k) = put C net c servers k
  send net c servers (get_call k) = get C net c servers k
  send net c servers (erase_call k) = erase C net c servers k

  step :
      (net : Network C.Store) (n : ℕ)
      → 0 < n
      → n ≤ 65536
      → Step false member (send net) key_of answer member_after n
  unfolding put get erase local_put local_get local_erase
  step net n pos few c servers (put_call k) width count =
      routed-global false member (local_put C) k k (λ b. true) (λ b. true) c (net.rpc (local_put C))
        servers (count ∙ sym width) (rw width pos) (rw width few)
        (λ s. (C.insert k s, refl, λ q. ground (arith, C.find-insert k s q, find_congr C k q s)))
  step net n pos few c servers (get_call k) width count =
      routed-global false member (local_get C) k k (λ b. b) (λ b. b) c (net.rpc (local_get C))
        servers (count ∙ sym width) (rw width pos) (rw width few)
        (λ s. (s, ground arith, λ q. ground (arith, find_congr C k q s)))
  step net n pos few c servers (erase_call k) width count =
      routed-global false member (local_erase C) k k (λ b. b) (λ b. false) c
        (net.rpc (local_erase C)) servers (count ∙ sym width) (rw width pos) (rw width few)
        (λ s.
          ((C.erase k s).1, ground (arith, C.erased k s), λ q. ground (arith, C.find-erase k s q)))

  -- Any series of Put, Get and Erase calls, by clients that count the servers alike, each near a server
  -- or far from all of them, through a network that runs what the servers have bound, returns with the
  -- answers of one set, the one that the servers hold between them at first.
  pub send_all-member :
      (net : Network C.Store) (servers : List C.Store) (calls : List (Container × SetCall K))
      → 0 < length servers
      → length servers ≤ 65536
      → Clients (length servers) calls
      → send_all (send net) servers calls
        ≡ some (answers key_of answer member_after calls (global false member servers))
  send_all-member net servers calls pos few counts =
      send_all-answers false member (send net) key_of answer member_after (length servers)
        (step net (length servers) pos few) servers calls (global false member servers) refl counts
        (λ q. refl)
