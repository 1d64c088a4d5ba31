-- ===== src/ConcurrentSkiplist/Members.antt =====
-- Insert, Find and Erase of the concurrent skip list, by clients anywhere: the servers' skip lists
-- together are one set.
use hcl.Base.{
  ℕ, ◌/◌, ◌^◌, ◌-◌, ◌≡◌, ◌≤◌, ◌<◌, refl, ◌∙◌, Bool, true, false, not, List, Option, some, length,
  ◌>>=◌, arith, u16, u16_id, u64,
}
use hcl.Container.{Network, run_at}
use hcl.Container.Routed.{at_server}
use hcl.Container.Placed.{
  replicate, length-replicate, replicate-all, placed, Serves, run_at-placed, Moves, issue, one_map,
  issue-one_map,
}
use hcl.HashKey.{HashKey, ◌≈◌, ≈-hash}
use hcl.ConcurrentSkiplist.{
  Skiplist, Sets, initialize_sets, server_location, local_insert, local_find, local_erase, insert,
  find, erase,
}
use hcl.ConcurrentSkiplist.Place.{initialized, clamp, clamp-lt, server_location-clamp}

pub data SkiplistCall (K : Type 0) : Type 0 where
  insert_call : K → SkiplistCall K
  find_call : K → SkiplistCall K
  erase_call : K → SkiplistCall K

module _ {K : Type 0} where
  -- a call with the rank of its client
  abbrev pub key_of : ℕ × SkiplistCall K → K
  key_of (rank, insert_call k) = k
  key_of (rank, find_call k) = k
  key_of (rank, erase_call k) = k

  -- what a call answers, where the key was a member or was not, and whether it is one afterwards
  abbrev pub answer : ℕ × SkiplistCall K → Bool → Bool
  answer (rank, insert_call k) b = not b
  answer (rank, find_call k) b = b
  answer (rank, erase_call k) b = b

  abbrev pub member_after : ℕ × SkiplistCall K → Bool → Bool
  member_after (rank, insert_call k) b = true
  member_after (rank, find_call k) b = b
  member_after (rank, erase_call k) b = false

module _ {K : Type 0} ⦃key : HashKey K⦄ (L : Skiplist K) (net : Network L.Store) (log2 : ℕ → ℕ)
    (np : ℕ) where
  abbrev pub call_at : Sets → List L.Store → SkiplistCall K → Option (Bool × List L.Store)
  call_at sets servers (insert_call k) = insert L net sets servers k
  call_at sets servers (find_call k) = find L net sets servers k
  call_at sets servers (erase_call k) = erase L net sets servers k

  -- a call by the client of a rank, which has set itself up
  abbrev pub send : List L.Store → ℕ × SkiplistCall K → Option (Bool × List L.Store)
  send servers (rank, call) = initialize_sets log2 np rank >>= λ sets. call_at sets servers call

module _ {K : Type 0} ⦃key : HashKey K⦄ (L : Skiplist K) where
  abbrev pub contains : L.Store → K → Bool
  contains s k = L.contains k s

  abbrev method_of : SkiplistCall K → K → L.Store → Option (Bool × L.Store)
  method_of (insert_call k) = local_insert L
  method_of (find_call k) = local_find L
  method_of (erase_call k) = local_erase L

  -- the server of a key, from the number of bits
  unfoldable pub place : ℕ → ℕ → K → ℕ
  place np nbits k = clamp np (u64 (key.hash k) / 2 ^ (64 - nbits))

  place-congr : (np nbits : ℕ) (k q : K) → (k ≈ q) ≡ true → place np nbits k ≡ place np nbits q
  unfolding place
  place-congr np nbits k q e = rw (≈-hash k q e) refl

  module _ (net : Network L.Store) (log2 : ℕ → ℕ) (np nbits : ℕ)
      (made : (rank : ℕ)
        → initialize_sets log2 np rank
          ≡ some (record { nservers = np; serverid = rank; nbits = nbits }))
      (pos : 0 < nbits) (top : nbits ≤ 30) (one : 0 < np) (few : np ≤ 65536) where
    -- each method at one server, as a request about its key
    serves :
        (rank : ℕ) (call : SkiplistCall K)
        → Serves
            (λ (s : L.Store). Unit {0})
            false
            contains
            (place np nbits)
            (method_of call)
            (key_of (rank, call))
            (key_of (rank, call))
            (answer (rank, call))
            (member_after (rank, call))
    unfolding local_insert local_find local_erase
    serves rank (insert_call k) s _ = (
      (L.insert k s).1,
      ground (arith, L.inserted k s),
      tt,
      λ q. ground (arith, L.contains-insert k s q),
    )
    serves rank (find_call k) s _ = (s, refl, tt, λ q. ground (arith, L.contains_congr k q s))
    serves rank (erase_call k) s _ = (
      (L.remove k s).1,
      ground (arith, L.removed k s),
      tt,
      λ q. ground (arith, L.contains-remove k s q),
    )

    -- a call that has found its server
    reaches :
        (sets : Sets) (k : K) (i : ℕ) (method : K → L.Store → Option (Bool × L.Store))
        (servers : List L.Store)
        → server_location sets (key.hash k) ≡ some i
        → i < np
        → length servers ≡ np
        → (server_location sets (key.hash k) >>= λ location.
            (net.rpc method).deliver servers (u16 location) k)
          ≡ run_at method servers i k
    reaches sets k i method servers at lt width =
        rw (at, u16_id i (omega arith))
          ((net.rpc method).deliver-run_at servers i k (omega (arith, width)))

    sent :
        (rank : ℕ) (call : SkiplistCall K) (servers : List L.Store)
        → length servers ≡ np
        → send L net log2 np servers (rank, call)
          ≡ run_at
              (method_of call)
              servers
              (place np nbits (key_of (rank, call)))
              (key_of (rank, call))
    unfolding insert find erase place
    sent rank call servers width =
        let sets : Sets = record { nservers = np; serverid = rank; nbits = nbits } in
        let found = λ (k : K). server_location-clamp sets (key.hash k) pos top in
        let below = λ (k : K).
          clamp-lt np (u64 (key.hash k) / 2 ^ (64 - nbits)) (omega arith) (omega arith) in
        rw (made rank)
          (elim call
            as (λ call.
              call_at L net log2 np sets servers call
              ≡ run_at (method_of call) servers (place np nbits (key_of (rank, call)))
                  (key_of (rank, call))) [
                    | insert_call k ↦
                        reaches sets k _ (local_insert L) servers (found k) (below k) width
                    | find_call k ↦
                        reaches sets k _ (local_find L) servers (found k) (below k) width
                    | erase_call k ↦
                        reaches sets k _ (local_erase L) servers (found k) (below k) width
                  ])

    moves :
        Moves
          (λ servers. length servers ≡ np)
          (placed (λ (s : L.Store). Unit {0}) false contains (place np nbits))
          (send L net log2 np)
          key_of
          answer
          member_after
    unfolding place
    moves servers (rank, call) width =
        let k = key_of (rank, call) in
        let (servers', run, width', kept, change) =
          run_at-placed (λ (s : L.Store). Unit {0}) false contains (place np nbits) (method_of call)
            k k (answer (rank, call)) (member_after (rank, call)) servers (place-congr np nbits k)
            (rw width
              (clamp-lt np (u64 (key.hash k) / 2 ^ (64 - nbits)) (omega arith) (omega arith)))
            (λ j s at. tt) (serves rank call) in
        (servers', sent rank call servers width ∙ run, width' ∙ width, change)

  -- On 2 to 65536 servers with new skip lists, where log2 is exact on powers of two, any series of
  -- Insert, Find and Erase calls, by clients of any rank that have set themselves up for that number of
  -- servers, through a network that runs what the servers have bound, returns with the answers of one
  -- set that was empty at first.
  pub issue-members :
      (net : Network L.Store) (log2 : ℕ → ℕ) (np : ℕ) (calls : List (ℕ × SkiplistCall K))
      → ((i : ℕ) → i ≤ 30 → log2 (2 ^ i) ≡ i)
      → 2 ≤ np
      → np ≤ 65536
      → issue (send L net log2 np) (replicate np L.empty) calls
        ≡ some (one_map key_of answer member_after calls (λ q. false))
  unfolding placed at_server
  issue-members net log2 np calls exact two few =
      let (nbits, made, pos, top, covers) = initialized log2 np exact two (omega arith) in
      issue-one_map (λ servers. length servers ≡ np)
        (placed (λ (s : L.Store). Unit {0}) false contains (place np nbits)) (send L net log2 np)
        key_of answer member_after (moves net log2 np nbits made pos top (omega arith) few)
        (replicate np L.empty) calls (λ q. false) (length-replicate np L.empty)
        (λ q.
          replicate-all (λ o. at_server false contains o q ≡ false) np L.empty refl
            (L.contains-empty q) (place np nbits q))
