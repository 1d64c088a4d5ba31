-- ===== src/PriorityQueue/Drain.antt =====
-- LocalPop of the priority queue until it is empty: the largest element first.
use hcl.Base.{
  ℕ, zero, suc, ◌+◌, ◌≡◌, refl, ap, Bool, true, List, [], ◌∷◌, Option, some, none, length, hits,
  filter, to_nat, lt→ltb, if◌then◌else◌, ◌>>=◌, arith,
}
use hcl.PriorityQueue.{TopQueue, local_pop}

module _ {V : Type 0} where
  -- each value with no larger one behind it
  unfoldable pub Descending : (less : V → V → Bool) → List V → Type 0
  Descending less [] = Unit {0}
  Descending less (v ∷ vs) = (hits (less v) vs ≡ 0) × Descending less vs

  -- `n` calls of LocalPop that each find an element, and their values
  unfoldable pub drain :
      {less : V → V → Bool} (Q : TopQueue less) → V → ℕ → Q.Store → Option (List V × Q.Store)
  drain Q value_default zero s = some ([], s)
  drain Q value_default (suc n) s = do
    ((b, value), s₁) ← local_pop Q value_default tt s
    (values, s₂) ← drain Q value_default n s₁
    if b then some (value ∷ values, s₂) else none

module _ {V : Type 0} {less : V → V → Bool} (Q : TopQueue less) where
  -- LocalPop of a queue with elements answers a largest one and leaves the others
  pub local_pop-largest :
      (value_default : V) (s : Q.Store) (n : ℕ)
      → length (Q.contents s) ≡ suc n
      → (v : V) × (local_pop Q value_default tt s ≡ some ((true, v), Q.pop s))
        × ((p : V → Bool) → hits p (Q.contents s) ≡ to_nat (p v) + hits p (Q.contents (Q.pop s)))
        × (hits (less v) (Q.contents s) ≡ 0)
  unfolding local_pop
  local_pop-largest value_default s n size = split (Q.contents s) refl
    where
      split :
          (xs : List V)
          → Q.contents s ≡ xs
          → (v : V) × (local_pop Q value_default tt s ≡ some ((true, v), Q.pop s))
            × ((p : V → Bool)
                → hits p (Q.contents s) ≡ to_nat (p v) + hits p (Q.contents (Q.pop s)))
            × (hits (less v) (Q.contents s) ≡ 0)
      split [] e = absurd (omega (arith, size, ap length e))
      split (x ∷ xs) e =
          let (v, at, left, largest) = Q.top_some s x xs e in
          (v, rw (lt→ltb 0 (length (Q.contents s)) (omega (arith, size)), at) refl, left, largest)

  hits-all : (xs : List V) → hits (λ v. true) xs ≡ length xs
  unfolding filter
  hits-all [] = refl
  hits-all (x ∷ xs) = ap suc (hits-all xs)

  none_in : (xs : List V) (p : V → Bool) → length xs ≡ 0 → 0 ≡ hits p xs
  unfolding filter
  none_in [] p e = refl
  none_in (x ∷ xs) p e = absurd (omega arith)

  -- Called as often as there are elements, LocalPop finds each time an element, no value is larger than
  -- one that came before it, the values are the elements, none more or less often, and the queue is left
  -- empty.
  pub drain-Descending :
      (value_default : V) (n : ℕ) (s : Q.Store)
      → length (Q.contents s) ≡ n
      → (values : List V) × (s' : Q.Store) × (drain Q value_default n s ≡ some (values, s'))
        × Descending less values
        × ((p : V → Bool) → hits p values ≡ hits p (Q.contents s))
        × (length (Q.contents s') ≡ 0)
  unfolding drain Descending filter
  drain-Descending value_default zero s size =
      ([], s, refl, tt, λ p. none_in (Q.contents s) p size, size)
  drain-Descending value_default (suc n) s size =
      let (v, run, left, largest) = local_pop-largest value_default s n size in
      let smaller : length (Q.contents (Q.pop s)) ≡ n =
        omega (
          arith,
          size,
          left (λ v. true),
          hits-all (Q.contents s),
          hits-all (Q.contents (Q.pop s)),
        ) in
      let (values, s', went, down, same, empty) =
        drain-Descending value_default n (Q.pop s) smaller in
      (
        v ∷ values,
        s',
        rw (run, went) refl,
        (omega (arith, same (less v), left (less v), largest), down),
        λ p. ground (arith, same p, left p),
        empty,
      )
