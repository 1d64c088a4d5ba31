-- ===== src/GlobalSequence/Order.antt =====
-- GetNextSequence and GetNextSequenceServer, by clients anywhere: each server counts, and hands out no
-- number twice before its counter has gone round.
use hcl.Base.{
  ◌≤◌, count, ℕ, zero, suc, ◌+◌, ◌<◌, ◌≡◌, ◌≢◌, refl, ◌∙◌, ap, List, [], ◌∷◌, Option, some, length,
  length-set, get_elem?, get_elem?-total, ◌>>=◌, set, u64, arith, ◌==◌, ==_iff, Bool-cases, inl,
  inr,
}
use hcl.Container.{Container, Network}
use hcl.Container.Calls.{call-set, in_server-set}
use hcl.Container.Addressed.{requests_at, answers_at, Aimed, serve_all, Served, Served-cons}
use hcl.GlobalSequence.{local_get_next_sequence, get_next_sequence, get_next_sequence_server}

-- the two methods; only the second one names a server
pub data SequenceCall : Type 0 where
  next_call : SequenceCall
  next_server_call : ℕ → SequenceCall

-- the server that a client asks
unfoldable pub asked : Container → SequenceCall → ℕ
asked c next_call = c.my_server_idx
asked c (next_server_call server) = server

abbrev pub send : Network ℕ → Container → List ℕ → SequenceCall → Option (ℕ × List ℕ)
send net c servers next_call = get_next_sequence net c servers
send net c servers (next_server_call server) = get_next_sequence_server net c servers server

unfoldable pub send_all :
    Network ℕ → List ℕ → List (Container × SequenceCall) → Option (List ℕ × List ℕ)
send_all net servers [] = some ([], servers)
send_all net servers ((c, call) ∷ calls) = do
  (r, servers') ← send net c servers call
  (rs, servers'') ← send_all net servers' calls
  some (r ∷ rs, servers'')

-- the calls, each with the server that it asks
unfoldable pub addressed : List (Container × SequenceCall) → List (Container × ℕ × Unit {0})
unfolding asked
addressed [] = []
addressed ((c, call) ∷ calls) = (c, asked c call, tt) ∷ addressed calls

-- `n` numbers from the one behind `value` on
unfoldable pub following : ℕ → ℕ → List ℕ
following value zero = []
following value (suc n) = let next = u64 (value + 1) in next ∷ following next n

unfoldable pub serve : Unit {0} → ℕ → ℕ × ℕ
serve _ value = let next = u64 (value + 1) in (next, next)

serve_all-following :
    (reqs : List (Unit {0})) (value : ℕ)
    → (serve_all serve reqs value).0 ≡ following value (length reqs)
unfolding serve serve_all following
serve_all-following [] value = refl
serve_all-following (req ∷ reqs) value =
    ap (◌∷◌ (u64 (value + 1))) (serve_all-following reqs (u64 (value + 1)))

-- a number that is none of those that follow
count-following_none :
    (n value m : ℕ) → ((k : ℕ) → k < m → n ≢ u64 (value + 1 + k)) → count n (following value m) ≡ 0
unfolding following count u64
count-following_none n value zero other = refl
count-following_none n value (suc m) other =
    let rest =
      count-following_none n (u64 (value + 1)) m
        (λ k lt e. other (suc k) (omega arith) (omega (arith, e))) in
    ground (arith, other 0 (omega arith), rest)

-- fewer than 2^64 numbers in a row are different
count-following : (n value m : ℕ) → m < 18446744073709551616 → count n (following value m) ≤ 1
unfolding following count u64
count-following n value zero few = omega arith
count-following n value (suc m) few = elim (Bool-cases (n == u64 (value + 1))) [
  | inl here ↦
      let is : n ≡ u64 (value + 1) = (==_iff _ _).0 here in
      let rest = count-following_none n (u64 (value + 1)) m (λ k lt e. omega (arith, is, e)) in
      rw here (omega (arith, rest))
  | inr other ↦ rw other (omega (arith, count-following n (u64 (value + 1)) m (omega arith)))
]

send-asked :
    (net : Network ℕ) (c : Container) (servers : List ℕ) (call : SequenceCall) (value : ℕ)
    → get_elem? servers (asked c call) ≡ some value
    → send net c servers call ≡ some (u64 (value + 1), set servers (asked c call) (u64 (value + 1)))
unfolding asked get_next_sequence get_next_sequence_server local_get_next_sequence
send-asked net c servers next_call value at =
    in_server-set c local_get_next_sequence (net.rpc local_get_next_sequence) servers tt value
      (u64 (value + 1)) (u64 (value + 1)) at refl
send-asked net c servers (next_server_call server) value at =
    call-set c local_get_next_sequence (net.rpc local_get_next_sequence) servers server tt value
      (u64 (value + 1)) (u64 (value + 1)) at refl

send_all-Served :
    (net : Network ℕ) (servers : List ℕ) (calls : List (Container × SequenceCall))
    → Aimed (length servers) (addressed calls)
    → (rs : List ℕ) × (servers' : List ℕ) × (send_all net servers calls ≡ some (rs, servers'))
      × Served serve servers (addressed calls) rs servers'
unfolding send_all addressed Aimed serve requests_at answers_at serve_all
send_all-Served net servers [] aimed = ([], servers, refl, λ i s at. (at, refl))
send_all-Served net servers ((c, call) ∷ calls) (lt, aimed) =
    let j = asked c call in
    let (value, here) = get_elem?-total servers j lt in
    let next = u64 (value + 1) in
    let (rs, servers', went, effect) =
      send_all-Served net (set servers j next) calls (rw (length-set servers j next) aimed) in
    (
      next ∷ rs,
      servers',
      rw (send-asked net c servers call value here, went) refl,
      Served-cons serve servers servers' c j tt (addressed calls) rs value here effect,
    )

-- Any series of calls, each to GetNextSequence or to GetNextSequenceServer, by a client anywhere,
-- the client's own server or the one named, which the call asks, being among the servers, through a
-- network that runs what the servers have bound, returns. For a server that is asked fewer than
-- 2^64 times, by either method, near or far: its answers are the numbers that follow its counter,
-- in order and around 2^64, and it answers no number twice.
pub run-following :
    (net : Network ℕ) (servers : List ℕ) (calls : List (Container × SequenceCall)) (i value : ℕ)
    → Aimed (length servers) (addressed calls)
    → get_elem? servers i ≡ some value
    → length (requests_at i (addressed calls)) < 18446744073709551616
    → (rs : List ℕ) × (servers' : List ℕ) × (send_all net servers calls ≡ some (rs, servers'))
      × (answers_at i (addressed calls) rs
          ≡ following value (length (requests_at i (addressed calls))))
      × ((n : ℕ) → count n (answers_at i (addressed calls) rs) ≤ 1)
run-following net servers calls i value aimed at few =
    let (rs, servers', went, effect) = send_all-Served net servers calls aimed in
    let (held, said) = effect i value at in
    let counts = said ∙ serve_all-following (requests_at i (addressed calls)) value in
    (rs, servers', went, counts, λ n. rw counts (count-following n value _ few))
