-- ===== src/Base/Lists.antt =====
-- Lists measured, indexed and counted by native numbers, under the library's names.
use Prim.Native.Nat.{ℕ, zero, suc, ◌+◌, ◌<◌}
use mathlib.Core.Bool.{Bool}
use mathlib.Core.List.{List, [], ◌∷◌, ◌++◌}
use mathlib.Core.Logic.{◌≢◌}
use mathlib.Core.Option.{Option, none, some, some-injective}
use mathlib.Core.Path.{sym, ◌≡◌, refl, ap, subst}
use native.Mathlib.Omega.{arith}
use hcl.Base.Bools.{◌==◌, to_nat, if◌then◌else◌}

module _ {ℓ} {A : Type ℓ} where
  abbrev pub length : List A → ℕ
  length [] = 0
  length (x ∷ xs) = suc (length xs)

  abbrev pub get_elem? : List A → ℕ → Option A
  get_elem? [] i = none
  get_elem? (x ∷ xs) zero = some x
  get_elem? (x ∷ xs) (suc i) = get_elem? xs i

  -- a write out of bounds changes nothing
  abbrev pub set : List A → ℕ → A → List A
  set [] i v = []
  set (x ∷ xs) zero v = v ∷ xs
  set (x ∷ xs) (suc i) v = x ∷ set xs i v

  abbrev pub take : ℕ → List A → List A
  take zero xs = []
  take (suc n) [] = []
  take (suc n) (x ∷ xs) = x ∷ take n xs

  pub length-append : (xs ys : List A) → length (xs ++ ys) ≡ length xs + length ys
  length-append [] ys = omega arith
  length-append (x ∷ xs) ys = omega (arith, length-append xs ys)

  pub length-set : (xs : List A) (i : ℕ) (v : A) → length (set xs i v) ≡ length xs
  length-set [] i v = refl
  length-set (x ∷ xs) zero v = refl
  length-set (x ∷ xs) (suc i) v = ap suc (length-set xs i v)

  pub get_elem?-set_self :
      (xs : List A) (i : ℕ) (v : A) → i < length xs → get_elem? (set xs i v) i ≡ some v
  get_elem?-set_self [] i v h = elim h [ ]
  get_elem?-set_self (x ∷ xs) zero v h = refl
  get_elem?-set_self (x ∷ xs) (suc i) v h = get_elem?-set_self xs i v (omega arith)

  pub get_elem?-set_ne :
      (xs : List A) (i j : ℕ) (v : A) → i ≢ j → get_elem? (set xs i v) j ≡ get_elem? xs j
  get_elem?-set_ne [] i j v h = refl
  get_elem?-set_ne (x ∷ xs) zero zero v h = absurd (h refl)
  get_elem?-set_ne (x ∷ xs) zero (suc j) v h = refl
  get_elem?-set_ne (x ∷ xs) (suc i) zero v h = refl
  get_elem?-set_ne (x ∷ xs) (suc i) (suc j) v h = get_elem?-set_ne xs i j v (λ e. h (ap suc e))

  pub get_elem?-total : (xs : List A) (i : ℕ) → i < length xs → (a : A) × (get_elem? xs i ≡ some a)
  get_elem?-total [] i h = absurd (omega arith)
  get_elem?-total (x ∷ xs) zero h = (x, refl)
  get_elem?-total (x ∷ xs) (suc i) h = get_elem?-total xs i (omega arith)

  pub get_elem?-lt : (xs : List A) (i : ℕ) (a : A) → get_elem? xs i ≡ some a → i < length xs
  get_elem?-lt [] i a h = absurd (cc)
  get_elem?-lt (x ∷ xs) zero a h = omega arith
  get_elem?-lt (x ∷ xs) (suc i) a h = omega (arith, get_elem?-lt xs i a h)

  pub get_elem?-set :
      (xs : List A) (i j : ℕ) (v : A)
      → i < length xs
      → get_elem? (set xs i v) j ≡ (if j == i then some v else get_elem? xs j)
  get_elem?-set [] i j v h = absurd (omega arith)
  get_elem?-set (x ∷ xs) zero zero v h = refl
  get_elem?-set (x ∷ xs) zero (suc j) v h = ground arith
  get_elem?-set (x ∷ xs) (suc i) zero v h = ground arith
  get_elem?-set (x ∷ xs) (suc i) (suc j) v h = ground (arith, get_elem?-set xs i j v)

  -- a predicate on every element, by position
  pub cons-all {κ} :
      (P : A → Type κ) (x : A) (xs : List A)
      → P x
      → ((j : ℕ) (a : A) → get_elem? xs j ≡ some a → P a)
      → (j : ℕ) (a : A) → get_elem? (x ∷ xs) j ≡ some a
      → P a
  cons-all P x xs px all zero a e = subst P (some-injective _ _ e) px
  cons-all P x xs px all (suc j) a e = all j a e

  -- what holds of every element and of the new one holds after the write
  pub set-all {κ} :
      (P : A → Type κ) (xs : List A) (i : ℕ) (v : A)
      → ((j : ℕ) (a : A) → get_elem? xs j ≡ some a → P a)
      → P v
      → (j : ℕ) (a : A) → get_elem? (set xs i v) j ≡ some a
      → P a
  set-all P [] i v all new j a e = all j a e
  set-all P (x ∷ xs) zero v all new zero a e = subst P (some-injective _ _ e) new
  set-all P (x ∷ xs) zero v all new (suc j) a e = all (suc j) a e
  set-all P (x ∷ xs) (suc i) v all new zero a e = all zero a e
  set-all P (x ∷ xs) (suc i) v all new (suc j) a e =
      set-all P xs i v (λ n b h. all (suc n) b h) new j a e

-- how often a number stands in a list
unfoldable pub count : ℕ → List ℕ → ℕ
count a [] = 0
count a (x ∷ xs) = to_nat (a == x) + count a xs

pub count-nil : (a : ℕ) → count a [] ≡ 0
unfolding count
count-nil a = refl

pub count-cons : (a x : ℕ) (xs : List ℕ) → count a (x ∷ xs) ≡ to_nat (a == x) + count a xs
unfolding count
count-cons a x xs = refl

pub count-append : (n : ℕ) (ms ns : List ℕ) → count n (ms ++ ns) ≡ count n ms + count n ns
unfolding count
count-append n [] ns = omega arith
count-append n (m ∷ ms) ns = omega (arith, count-append n ms ns)

-- the elements that pass a test, in order
unfoldable pub filter {ℓ} : {A : Type ℓ} → (A → Bool) → List A → List A
filter p [] = []
filter p (x ∷ xs) = let rest = filter p xs in if p x then x ∷ rest else rest

-- the list without its first `n` elements
unfoldable pub drop {ℓ} : {A : Type ℓ} → ℕ → List A → List A
drop zero xs = xs
drop (suc n) [] = []
drop (suc n) (x ∷ xs) = drop n xs

pub drop-length {ℓ} : {A : Type ℓ} (xs : List A) → drop (length xs) xs ≡ []
unfolding drop
drop-length [] = refl
drop-length (x ∷ xs) = drop-length xs

-- how many elements pass a test
abbrev pub hits {ℓ} : {A : Type ℓ} → (A → Bool) → List A → ℕ
hits p xs = length (filter p xs)

pub hits-append {ℓ} :
    {A : Type ℓ} (p : A → Bool) (xs ys : List A) → hits p (xs ++ ys) ≡ hits p xs + hits p ys
unfolding filter
hits-append p [] ys = omega arith
hits-append p (x ∷ xs) ys = ground (arith, hits-append p xs ys)

pub set-same {ℓ} :
    {A : Type ℓ} (xs : List A) (i : ℕ) (a : A) → get_elem? xs i ≡ some a → set xs i a ≡ xs
set-same [] i a e = refl
set-same (x ∷ xs) zero a e = ap (λ y. y ∷ xs) (sym (some-injective _ _ e))
set-same (x ∷ xs) (suc i) a e = ap (◌∷◌ x) (set-same xs i a e)
