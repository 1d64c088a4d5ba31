-- ===== src/Strings/Find.antt =====
-- Searching and cutting a text that is put together from parts.
use hcl.Base.{
  ℕ, zero, suc, ◌+◌, ◌≡◌, ◌≢◌, subst, ◌≤◌, ◌↔◌, refl, ap, true, List, [], ◌∷◌, ◌++◌, some, none,
  length, length-append, append_assoc, take, drop, leb, arith,
}
use hcl.Strings.{lacks, starts_with, same_text, find, substr}

starts_with-append : (ps ys : List ℕ) → starts_with ps (ps ++ ys) ≡ true
unfolding starts_with
starts_with-append [] ys = refl
starts_with-append (p ∷ ps) ys = ground (arith, starts_with-append ps ys)

pub find-append :
    (c : ℕ) (ps xs ys : List ℕ)
    → lacks c xs ≡ true
    → find (c ∷ ps) (xs ++ ((c ∷ ps) ++ ys)) ≡ some (length xs)
unfolding find lacks starts_with
find-append c ps [] ys e = ground (arith, starts_with-append ps ys)
find-append c ps (x ∷ xs) ys e = ground (arith, find-append c ps xs ys)

pub find-lacks : (c : ℕ) (ps xs : List ℕ) → lacks c xs ≡ true → find (c ∷ ps) xs ≡ none
unfolding find lacks starts_with
find-lacks c ps [] e = refl
find-lacks c ps (x ∷ xs) e = ground (arith, find-lacks c ps xs)

pub lacks-append :
    (c : ℕ) (xs ys : List ℕ) → lacks c xs ≡ true → lacks c ys ≡ true → lacks c (xs ++ ys) ≡ true
unfolding lacks
lacks-append c [] ys p q = q
lacks-append c (x ∷ xs) ys p q = ground (arith, lacks-append c xs ys)

pub take-length : (xs : List ℕ) (n : ℕ) → length xs ≤ n → take n xs ≡ xs
take-length [] zero le = refl
take-length [] (suc n) le = refl
take-length (x ∷ xs) zero le = absurd (omega arith)
take-length (x ∷ xs) (suc n) le = ap (◌∷◌ x) (take-length xs n (omega arith))

take-append : (xs ys : List ℕ) → take (length xs) (xs ++ ys) ≡ xs
take-append [] ys = refl
take-append (x ∷ xs) ys = ap (◌∷◌ x) (take-append xs ys)

drop-append : (xs ys : List ℕ) → drop (length xs) (xs ++ ys) ≡ ys
unfolding drop
drop-append [] ys = refl
drop-append (x ∷ xs) ys = drop-append xs ys

pub substr-front : (xs ys : List ℕ) → substr (xs ++ ys) 0 (length xs) ≡ some xs
unfolding substr drop
substr-front xs ys =
    let inside : leb 0 (length (xs ++ ys)) ≡ true = ground arith in
    rw (inside, take-append xs ys) refl

pub substr-back :
    (xs ys : List ℕ) (n : ℕ) → length ys ≤ n → substr (xs ++ ys) (length xs) n ≡ some ys
unfolding substr
substr-back xs ys n le =
    let inside : leb (length xs) (length (xs ++ ys)) ≡ true = ground (arith, length-append xs ys) in
    rw (inside, drop-append xs ys, take-length ys n le) refl

pub substr-after :
    (xs ys zs : List ℕ) (first n : ℕ)
    → first ≡ length xs + length ys
    → length zs ≤ n
    → substr (xs ++ (ys ++ zs)) first n ≡ some zs
substr-after xs ys zs first n e le =
    rw (e, ← length-append xs ys, ← append_assoc xs ys zs) (substr-back (xs ++ ys) zs n le)

pub length-drop : (xs : List ℕ) (n : ℕ) → length (drop n xs) ≤ length xs
unfolding drop
length-drop xs zero = omega arith
length-drop [] (suc n) = omega arith
length-drop (x ∷ xs) (suc n) = omega (arith, length-drop xs n)

pub lacks-drop : (c : ℕ) (xs : List ℕ) (n : ℕ) → lacks c xs ≡ true → lacks c (drop n xs) ≡ true
unfolding drop lacks
lacks-drop c xs zero e = e
lacks-drop c [] (suc n) e = e
lacks-drop c (x ∷ xs) (suc n) e = lacks-drop c xs n (ground arith)

pub same_text_iff : (xs ys : List ℕ) → (same_text xs ys ≡ true) ↔ (xs ≡ ys)
unfolding same_text
same_text_iff [] [] = ground arith
same_text_iff [] (y ∷ ys) = ground arith
same_text_iff (x ∷ xs) [] = ground arith
same_text_iff (x ∷ xs) (y ∷ ys) = ground (arith, same_text_iff xs ys)

-- a text that lacks a byte does not have one behind a first part
lacks-not_append : (c : ℕ) (xs ys : List ℕ) → lacks c (xs ++ (c ∷ ys)) ≢ true
unfolding lacks
lacks-not_append c [] ys e = absurd (ground arith)
lacks-not_append c (x ∷ xs) ys e = lacks-not_append c xs ys (ground arith)

-- a text falls into two parts at the last place of a byte
pub split-injective :
    (c : ℕ) (xs xs' ys ys' : List ℕ)
    → lacks c ys ≡ true
    → lacks c ys' ≡ true
    → xs ++ (c ∷ ys) ≡ xs' ++ (c ∷ ys')
    → (xs ≡ xs') × (ys ≡ ys')
split-injective c [] [] ys ys' l l' e = (refl, cc)
split-injective c [] (x ∷ xs') ys ys' l l' e =
    let tail : ys ≡ xs' ++ (c ∷ ys') = cc in
    absurd (lacks-not_append c xs' ys' (subst (λ t. lacks c t ≡ true) tail l))
split-injective c (x ∷ xs) [] ys ys' l l' e =
    let tail : ys' ≡ xs ++ (c ∷ ys) = cc in
    absurd (lacks-not_append c xs ys (subst (λ t. lacks c t ≡ true) tail l'))
split-injective c (x ∷ xs) (x' ∷ xs') ys ys' l l' e =
    let rest = split-injective c xs xs' ys ys' l l' (cc) in
    let first : x ≡ x' = cc in (rw (first, rest.0) refl, rest.1)
