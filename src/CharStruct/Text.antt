-- ===== src/CharStruct/Text.antt =====
-- The texts that the constructors and the concatenations of CharStruct make.
use hcl.Base.{
  ℕ, zero, suc, ◌+◌, ◌≡◌, ◌≤◌, ◌<◌, refl, ◌∙◌, ap, Bool, true, List, [], ◌∷◌, ◌++◌, some, none,
  length, length-append, take, ltb, lt→ltb, if◌then◌else◌, arith,
}
use hcl.Strings.{lacks}
use hcl.Strings.Find.{lacks-append, take-length}
use hcl.CharStruct.{
  CharStruct, copy_of, c_str, snprintf, of_chars, of_string, of_prefix, set_prefix, set_string,
  plus, plus_assign, plus_string,
}

-- no byte of a text is zero
abbrev pub no_nul : List ℕ → Bool
no_nul = lacks 0

pub c_str-no_nul : (xs : List ℕ) → no_nul xs ≡ true → c_str xs ≡ xs
unfolding c_str lacks
c_str-no_nul [] e = refl
c_str-no_nul (x ∷ xs) e = ground (arith, c_str-no_nul xs)

-- a size that is enough for the text
pub snprintf-whole :
    (xs : List ℕ) (size : ℕ)
    → length xs + 1 ≤ size
    → snprintf size xs ≡ (if ltb (length xs) 256 then some (record { value = xs }) else none)
unfolding snprintf
snprintf-whole xs zero le = absurd (omega arith)
snprintf-whole xs (suc n) le = rw (take-length xs n (omega arith)) refl

-- Texts without zero bytes: + and += give the one text behind the other where both together have fewer
-- than 256 bytes; where they have 256 or more, the array is written past its end.
pub plus-append :
    (a b : CharStruct)
    → no_nul a.value ≡ true
    → no_nul b.value ≡ true
    → let joined : CharStruct = record { value = a.value ++ b.value } in
      let both = if ltb (length a.value + length b.value) 256 then some joined else none in
      (plus a b ≡ both) × (plus_assign a b ≡ both)
unfolding plus plus_assign of_string of_chars set_string
plus-append a b p q =
    let text = a.value ++ b.value in
    let clean = c_str-no_nul text (lacks-append 0 a.value b.value p q) in
    let whole = snprintf-whole text (length text + 1) (omega arith) in
    (
      rw (clean, whole, length-append a.value b.value) refl,
      rw (clean, whole, length-append a.value b.value) refl,
    )

length-take : (xs : List ℕ) (n : ℕ) → n ≤ length xs → length (take n xs) ≡ n
length-take xs zero le = refl
length-take [] (suc n) le = absurd (omega arith)
length-take (x ∷ xs) (suc n) le = ap suc (length-take xs n (omega arith))

-- Of a text that has as many bytes as the size that it is given with, or more, at most 255: Set keeps as
-- many bytes as that size, and the constructor one byte less.
pub of_prefix-shorter :
    (text : List ℕ) (size : ℕ)
    → suc size ≤ length text
    → suc size < 256
    → (set_prefix text (suc size) ≡ some (record { value = take (suc size) text }))
      × (of_prefix text (suc size) ≡ some (record { value = take size text }))
unfolding set_prefix of_prefix snprintf
of_prefix-shorter text size le lt =
    let e : suc size + 1 ≡ suc (suc size) = omega arith in
    (
      ap (λ n. snprintf n text) e
          ∙ rw (snprintf, length-take text (suc size) le, lt→ltb (suc size) 256 lt) refl,
      rw (length-take text size (omega arith), lt→ltb size 256 (omega arith)) refl,
    )

pub copy_of-some :
    (xs : List ℕ) → length xs < 256 → copy_of (record { value = xs }) ≡ some (record { value = xs })
unfolding copy_of of_chars
copy_of-some xs lt =
    rw (snprintf-whole xs (length xs + 1) (omega arith), lt→ltb (length xs) 256 lt) refl

-- texts without zero bytes that are short enough
module _ (xs : List ℕ) (clean : no_nul xs ≡ true) where
  pub of_string-some : length xs < 256 → of_string xs ≡ some (record { value = xs })
  unfolding of_string of_chars
  of_string-some lt =
      rw
        (
          c_str-no_nul xs clean,
          snprintf-whole xs (length xs + 1) (omega arith),
          lt→ltb (length xs) 256 lt,
        )
        refl

  pub plus-some :
      (ys : List ℕ)
      → no_nul ys ≡ true
      → length xs + length ys < 256
      → (plus (record { value = xs }) (record { value = ys }) ≡ some (record { value = xs ++ ys }))
        × (plus_assign (record { value = xs }) (record { value = ys })
            ≡ some (record { value = xs ++ ys }))
  plus-some ys clean' lt =
      let joined = plus-append (record { value = xs }) (record { value = ys }) clean clean' in
      let fits = lt→ltb (length xs + length ys) 256 lt in
      (joined.0 ∙ rw fits refl, joined.1 ∙ rw fits refl)

  pub plus_string-some :
      (ys : List ℕ)
      → no_nul ys ≡ true
      → length xs + length ys < 256
      → plus_string (record { value = xs }) ys ≡ some (record { value = xs ++ ys })
  unfolding plus_string of_string of_chars
  plus_string-some ys clean' lt =
      let text = xs ++ ys in
      rw
        (
          c_str-no_nul text (lacks-append 0 xs ys clean clean'),
          snprintf-whole text (length text + 1) (omega arith),
          lt→ltb (length text) 256 (omega (arith, length-append xs ys)),
        )
        refl
