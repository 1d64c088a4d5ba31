-- ===== src/Tests/Skiplists.antt =====
-- The concurrent skip list at a concrete input: three servers, sorted lists for the skip lists, a
-- network that runs what the servers have bound, and log2 by halving.
use native.Mathlib.Nat.{pow-suc, one-le-pow}
use hcl.Base.{
  ℕ, zero, suc, ◌/◌, ◌^◌, ◌≡◌, ◌≤◌, ◌<◌, refl, true, false, not, ◌&&◌, ◌||◌, List, [], ◌∷◌, some,
  none, is_some, ltb, le→ltb, if◌then◌else◌, ◌==◌, arith,
}
use hcl.Container.{direct_network}
use hcl.Container.Placed.{replicate, issue, one_map}
use hcl.HashKey.{◌≈◌, int_key, int_sort}
use hcl.Sorted.Lists.{search}
use hcl.Sorted.{SortedContainer, sorted_list, find_congr}
use hcl.ConcurrentSkiplist.{Skiplist, Sets, initialize_sets, server_location, is_local}
use hcl.ConcurrentSkiplist.Place.{server_location-covers, server_location-alone}
use hcl.ConcurrentSkiplist.Members.{
  SkiplistCall, insert_call, find_call, erase_call, send, key_of, answer, member_after,
  issue-members,
}

abbrev log2 : ℕ → ℕ → ℕ
log2 zero n = 0
log2 (suc fuel) n = let rest = log2 fuel (n / 2) in if ltb n 2 then 0 else suc rest

log2-pow : (fuel i : ℕ) → i < fuel → log2 fuel (2 ^ i) ≡ i
log2-pow zero i lt = absurd (omega arith)
log2-pow (suc fuel) zero lt = refl
log2-pow (suc fuel) (suc i) lt =
    let half : 2 ^ suc i / 2 ≡ 2 ^ i = omega (arith, pow-suc 2 i) in
    rw
      (
        le→ltb (2 ^ suc i) 2 (omega (arith, pow-suc 2 i, one-le-pow i 2)),
        half,
        log2-pow fuel i (omega arith),
      )
      refl

log2-exact : (i : ℕ) → i ≤ 30 → log2 31 (2 ^ i) ≡ i
log2-exact i le = log2-pow 31 i (omega arith)

abbrev store : SortedContainer {E = ℕ} {K = ℕ} (λ k. k)
store = sorted_list (λ k. k)

store_congr :
    (k q : ℕ) (s : store.Store)
    → (k ≈ q) ≡ true
    → is_some (store.find k s) ≡ is_some (store.find q s)
store_congr k q s e = rw (find_congr store k q s e) refl

contains-insert_one :
    (k : ℕ) (s : store.Store) (q : ℕ)
    → is_some (store.find q (store.insert k s)) ≡ ((k ≈ q) || is_some (store.find q s))
contains-insert_one k s q = ground (arith, store.find-insert k s q, find_congr store k q s)

contains-erase_one :
    (k : ℕ) (s : store.Store) (q : ℕ)
    → is_some (store.find q (store.erase k s).1) ≡ (not (k ≈ q) && is_some (store.find q s))
contains-erase_one k s q = ground (arith, store.find-erase k s q)

contains-none : (k : ℕ) → is_some (store.find k store.empty) ≡ false
unfolding search
contains-none k = refl

abbrev skiplist : Skiplist ℕ
skiplist = record {
  Store = store.Store;
  empty = store.empty;
  insert = λ k s. (not (is_some (store.find k s)), store.insert k s);
  contains = λ k s. is_some (store.find k s);
  remove = λ k s. (is_some (store.find k s), (store.erase k s).1);
  contains-empty = contains-none;
  contains_congr = store_congr;
  inserted = λ k s. refl;
  contains-insert = contains-insert_one;
  removed = λ k s. refl;
  contains-remove = contains-erase_one;
}

abbrev skiplist_calls : List (ℕ × SkiplistCall ℕ)
skiplist_calls =
    (0, insert_call 9223372036854775808)
    ∷ (2, find_call 9223372036854775808)
    ∷ (1, erase_call 9223372036854775808)
    ∷ (0, find_call 9223372036854775808)
    ∷ []

issue-members_example :
    issue
      (send skiplist (direct_network store.Store) (log2 31) 3)
      (replicate 3 skiplist.empty)
      skiplist_calls
    ≡ some (one_map key_of answer member_after skiplist_calls (λ q. false))
issue-members_example =
    issue-members skiplist (direct_network store.Store) (log2 31) 3 skiplist_calls log2-exact
      (omega arith) (omega arith)

server_location-covers_example :
    (sets : Sets) × (initialize_sets (log2 31) 3 1 ≡ some sets)
    × ((hash : ℕ)
        → (i : ℕ) × (server_location sets hash ≡ some i)
          × (i < 3)
          × (is_local true sets hash ≡ some (i == 1)))
    × (hash : ℕ) × (server_location sets hash ≡ some 2)
server_location-covers_example =
    server_location-covers (log2 31) 3 1 2 log2-exact (omega arith) (omega arith) (omega arith)

server_location-alone_example :
    (sets : Sets) × (initialize_sets (log2 31) 1 0 ≡ some sets)
    × ((hash : ℕ) → server_location sets hash ≡ none)
server_location-alone_example = server_location-alone (log2 31) 0 log2-exact
