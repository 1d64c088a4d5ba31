-- ===== src/CharStruct/Order.antt =====
-- The comparisons of CharStruct.
use hcl.Base.{ℕ, ◌≡◌, ◌↔◌, refl, true, false, not, ◌&&◌, List, [], ◌∷◌, arith}
use hcl.CharStruct.{
  CharStruct, Sign, negative, null, positive, strcmp, is_null, is_positive, is_negative, equals,
  greater, greater_equal, less, less_equal,
}

flip : Sign → Sign
flip negative = positive
flip null = null
flip positive = negative

strcmp-flip : (xs ys : List ℕ) → strcmp ys xs ≡ flip (strcmp xs ys)
unfolding strcmp flip
strcmp-flip [] [] = refl
strcmp-flip [] (y ∷ ys) = refl
strcmp-flip (x ∷ xs) [] = refl
strcmp-flip (x ∷ xs) (y ∷ ys) = ground (arith, strcmp-flip xs ys)

strcmp_refl : (xs : List ℕ) → strcmp xs xs ≡ null
unfolding strcmp
strcmp_refl [] = refl
strcmp_refl (x ∷ xs) = ground (arith, strcmp_refl xs)

strcmp_null : (xs ys : List ℕ) → is_null (strcmp xs ys) ≡ true → xs ≡ ys
unfolding strcmp is_null
strcmp_null [] [] e = refl
strcmp_null [] (y ∷ ys) e = absurd (ground arith)
strcmp_null (x ∷ xs) [] e = absurd (ground arith)
strcmp_null (x ∷ xs) (y ∷ ys) e =
    let same : x ≡ y = ground arith in
    let rest = strcmp_null xs ys (ground arith) in rw (same, rest) refl

strcmp_trans :
    (xs ys zs : List ℕ)
    → (is_negative (strcmp xs ys) && is_negative (strcmp ys zs) && not (is_negative (strcmp xs zs)))
      ≡ false
unfolding strcmp is_negative
strcmp_trans [] [] zs = refl
strcmp_trans [] (y ∷ ys) [] = ground arith
strcmp_trans [] (y ∷ ys) (z ∷ zs) = ground arith
strcmp_trans (x ∷ xs) [] zs = ground arith
strcmp_trans (x ∷ xs) (y ∷ ys) [] = ground arith
strcmp_trans (x ∷ xs) (y ∷ ys) (z ∷ zs) = ground (arith, strcmp_trans xs ys zs)

-- The comparisons are those of one strict total order: == is equality of the texts; of <, == and > just
-- one holds; < is transitive, > is < with its sides exchanged, and <= and >= are the negations of > and <.
pub comparisons-order :
    (a b : CharStruct)
    → ((equals a b ≡ true) ↔ (a.value ≡ b.value))
      × (equals a b ≡ (not (less a b) && not (greater a b)))
      × ((less a b && greater a b) ≡ false)
      × (greater a b ≡ less b a)
      × (less_equal a b ≡ not (greater a b))
      × (greater_equal a b ≡ not (less a b))
      × ((c : CharStruct) → (less a b && less b c && not (less a c)) ≡ false)
unfolding equals less greater less_equal greater_equal is_null is_positive is_negative flip
comparisons-order a b = (
  (strcmp_null a.value b.value, λ e. rw (e, strcmp_refl b.value) refl),
  signs (strcmp a.value b.value),
  both (strcmp a.value b.value),
  rw (strcmp-flip a.value b.value) (turned (strcmp a.value b.value)),
  refl,
  refl,
  λ c. strcmp_trans a.value b.value c.value,
)
  where
    signs : (s : Sign) → is_null s ≡ (not (is_negative s) && not (is_positive s))
    signs negative = refl
    signs null = refl
    signs positive = refl

    both : (s : Sign) → (is_negative s && is_positive s) ≡ false
    both negative = refl
    both null = refl
    both positive = refl

    turned : (s : Sign) → is_positive s ≡ is_negative (flip s)
    turned negative = refl
    turned null = refl
    turned positive = refl
