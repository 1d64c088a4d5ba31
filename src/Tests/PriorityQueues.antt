-- ===== src/Tests/PriorityQueues.antt =====
-- The priority queue at concrete inputs: two servers, unsorted lists of numbers for the priority queues,
-- a network that runs what the servers have bound.
use hcl.Base.{
  ℕ, ◌+◌, ◌≡◌, refl, Bool, List, [], ◌∷◌, Option, some, none, length, get_elem?, hits, filter,
  to_nat, ltb, if◌then◌else◌, arith, subst, ◌≤◌, inl, inr, Bool-cases, ltb→lt, le→ltb, not_ltb→le,
}
use hcl.Container.{Container, direct_network}
use hcl.Container.Addressed.{requests_at, answers_at, Aimed, run}
use hcl.PriorityQueue.{TopQueue}
use hcl.PriorityQueue.Balance.{
  PriorityCall, PriorityAnswer, push_call, pop_call, top_call, size_call, values_pushed,
  values_popped, send, run-balance,
}
use hcl.PriorityQueue.Drain.{Descending, drain, drain-Descending}
use hcl.Tests.Containers.{near, far}

-- the largest of `x` and the list, and the others
abbrev select : ℕ → List ℕ → ℕ × List ℕ
select x [] = (x, [])
select x (y ∷ ys) =
    let (big, smaller) = if ltb x y then (y, x) else (x, y) in
    let (m, rest) = select big ys in (m, smaller ∷ rest)

abbrev largest : List ℕ → Option ℕ
largest [] = none
largest (x ∷ xs) = some (select x xs).0

abbrev others : List ℕ → List ℕ
others [] = []
others (x ∷ xs) = (select x xs).1

select-hits :
    (p : ℕ → Bool) (x : ℕ) (xs : List ℕ)
    → hits p (x ∷ xs) ≡ to_nat (p (select x xs).0) + hits p (select x xs).1
unfolding filter
select-hits p x [] = ground arith
select-hits p x (y ∷ ys) = ground (arith, select-hits p x ys, select-hits p y ys)

select-largest : (x : ℕ) (xs : List ℕ) → (x ≤ (select x xs).0) × (hits (ltb (select x xs).0) xs ≡ 0)
unfolding filter
select-largest x [] = (omega arith, refl)
select-largest x (y ∷ ys) = elim (Bool-cases (ltb x y)) [
  | inl lt ↦
      let (le, most) = select-largest y ys in
      subst Top {x = (select y ys).0} (rw lt refl)
        (omega (arith, ltb→lt x y lt, le), ground (arith, le→ltb _ _ le, most))
  | inr ge ↦
      let (le, most) = select-largest x ys in
      subst Top {x = (select x ys).0} (rw ge refl) (le, ground (arith, not_ltb→le x y ge, le, most))
]
  where
    Top : ℕ → Type 0
    Top m = (x ≤ m) × (hits (ltb m) (y ∷ ys) ≡ 0)

largest-top :
    (s : List ℕ) (x : ℕ) (xs : List ℕ)
    → s ≡ x ∷ xs
    → (v : ℕ) × (largest s ≡ some v)
      × ((p : ℕ → Bool) → hits p s ≡ to_nat (p v) + hits p (others s))
      × (hits (ltb v) s ≡ 0)
unfolding filter
largest-top s x xs e =
    let (le, most) = select-largest x xs in
    ((select x xs).0, rw e refl, λ p. rw e (select-hits p x xs), rw (e, le→ltb _ _ le) most)

hits-cons : (p : ℕ → Bool) (v : ℕ) (s : List ℕ) → hits p (v ∷ s) ≡ to_nat (p v) + hits p s
unfolding filter
hits-cons p v s = ground arith

abbrev numbers : TopQueue ltb
numbers = record {
  Store = List ℕ;
  empty = [];
  contents = λ s. s;
  push = λ v s. v ∷ s;
  top = largest;
  pop = others;
  contents-empty = refl;
  hits-push = hits-cons;
  top_some = largest-top;
}

drain-Descending_example :
    (values : List ℕ) × (s' : List ℕ) × (drain numbers 0 3 (5 ∷ 9 ∷ 7 ∷ []) ≡ some (values, s'))
    × Descending ltb values
    × ((p : ℕ → Bool) → hits p values ≡ hits p (5 ∷ 9 ∷ 7 ∷ []))
    × (length s' ≡ 0)
drain-Descending_example = drain-Descending numbers 0 3 (5 ∷ 9 ∷ 7 ∷ []) refl

abbrev priority_queues : List (List ℕ)
priority_queues = (1 ∷ 2 ∷ []) ∷ [] ∷ []

abbrev priority_calls : List (Container × ℕ × PriorityCall ℕ)
priority_calls =
    (near, 0, push_call 7) ∷ (far, 0, pop_call) ∷ (far, 0, top_call) ∷ (near, 1, size_call) ∷ []

priority_calls-Aimed : Aimed 2 priority_calls
unfolding Aimed
priority_calls-Aimed = (omega arith, (omega arith, (omega arith, (omega arith, tt))))

run-balance_example :
    (rs : List (PriorityAnswer ℕ)) × (servers' : List (List ℕ)) × (run
        (send numbers (direct_network (List ℕ)) 0)
        priority_queues
        priority_calls
      ≡ some (rs, servers'))
    × (s' : List ℕ) × (get_elem? servers' 0 ≡ some s')
    × ((p : ℕ → Bool)
        → hits p (1 ∷ 2 ∷ []) + hits p (values_pushed (requests_at 0 priority_calls))
          ≡ hits p (values_popped (answers_at 0 priority_calls rs)) + hits p s')
run-balance_example =
    run-balance numbers (direct_network (List ℕ)) 0 priority_queues priority_calls 0 (1 ∷ 2 ∷ [])
      priority_calls-Aimed refl
