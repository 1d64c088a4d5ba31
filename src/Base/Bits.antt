-- ===== src/Base/Bits.antt =====
-- The digits that `&` keeps under a mask of the upper digits of a word.
use Prim.Native.Nat.{
  ℕ, zero, suc, ◌+◌, ◌-◌, ◌*◌, ◌/◌, ◌%◌, ◌^◌, ◌≤◌, ◌<◌, min, bit_and, digits, bit_and-bitwise,
}
use mathlib.Core.Path.{◌≡◌, refl, ap, sym, ◌∙◌, subst}
use native.Mathlib.Omega.{arith}
use native.Mathlib.Nat.{pow-suc, pow-succ', one-le-pow, div-div-eq-div-mul}

-- `bit_and` counts down its first argument; any count that is large enough does
abbrev and_count : ℕ → ℕ → ℕ → ℕ
and_count n x y = digits (λ rest. zero) min n x y

and_count-enough : (x n m y : ℕ) → x ≤ n → x ≤ m → and_count n x y ≡ and_count m x y
and_count-enough zero zero zero y p q = refl
and_count-enough zero zero (suc m) y p q = refl
and_count-enough zero (suc n) zero y p q = refl
and_count-enough zero (suc n) (suc m) y p q = refl
and_count-enough (suc x) zero m y p q = absurd (omega arith)
and_count-enough (suc x) (suc n) zero y p q = absurd (omega arith)
and_count-enough (suc x) (suc n) (suc m) y p q =
    omega (arith, and_count-enough (suc x / 2) n m (y / 2) (omega arith) (omega arith))

-- the lowest digit, and the others
and-halves : (x y : ℕ) → bit_and x y ≡ bit_and (x / 2) (y / 2) * 2 + min (x % 2) (y % 2)
and-halves zero y = omega (arith, bit_and-bitwise 0 y, bit_and-bitwise (0 / 2) (y / 2))
and-halves (suc x) y = omega (
  arith,
  bit_and-bitwise (suc x) y,
  bit_and-bitwise (suc x / 2) (y / 2),
  and_count-enough (suc x / 2) x (suc x / 2) (y / 2) (omega arith) (omega arith),
)

and_zero : (n x : ℕ) → x ≤ n → bit_and x 0 ≡ 0
and_zero n zero p = bit_and-bitwise 0 0
and_zero zero (suc x) p = absurd (omega arith)
and_zero (suc n) (suc x) p =
    omega (arith, and-halves (suc x) 0, and_zero n (suc x / 2) (omega arith))

and_all : (w x : ℕ) → x < 2 ^ w → bit_and x (2 ^ w - 1) ≡ x
and_all zero x lt = omega (arith, and_zero x x (omega arith))
and_all (suc w) x lt =
    let half : (2 ^ suc w - 1) / 2 ≡ 2 ^ w - 1 = omega (arith, pow-suc 2 w, one-le-pow w 2) in
    omega (
      arith,
      and-halves x (2 ^ suc w - 1),
      ap (bit_and (x / 2)) half,
      and_all w (x / 2) (omega (arith, pow-suc 2 w)),
      pow-suc 2 w,
      one-le-pow w 2,
    )

-- the upper `w` digits of `s + w`, moved down
pub and_high : (s w x : ℕ) → x < 2 ^ (s + w) → bit_and x (2 ^ (s + w) - 2 ^ s) / 2 ^ s ≡ x / 2 ^ s
and_high zero w x lt =
    let e : 0 + w ≡ w = omega arith in
    rw e (ap (λ q. q / 2 ^ 0) (and_all w x (subst (λ n. x < 2 ^ n) e lt)))
and_high (suc s) w x lt =
    let mask = 2 ^ (s + w) - 2 ^ s in
    let double : 2 ^ (suc s + w) ≡ 2 ^ (s + w) * 2 =
      ap (λ n. 2 ^ n) (omega arith) ∙ pow-suc 2 (s + w) in
    let half : (2 ^ (suc s + w) - 2 ^ suc s) / 2 ≡ mask = omega (arith, double, pow-suc 2 s) in
    let low : (2 ^ (suc s + w) - 2 ^ suc s) % 2 ≡ 0 = omega (arith, double, pow-suc 2 s) in
    let halved : bit_and x (2 ^ (suc s + w) - 2 ^ suc s) / 2 ≡ bit_and (x / 2) mask =
      omega (arith, and-halves x (2 ^ (suc s + w) - 2 ^ suc s), ap (bit_and (x / 2)) half, low) in
    let q = bit_and x (2 ^ (suc s + w) - 2 ^ suc s) in
    ap (λ p. q / p) (pow-succ' 2 s)
    ∙ sym (div-div-eq-div-mul q 2 (2 ^ s))
    ∙ ap (λ h. h / 2 ^ s) halved
    ∙ and_high s w (x / 2) (omega (arith, double))
    ∙ div-div-eq-div-mul x 2 (2 ^ s)
    ∙ ap (λ p. x / p) (sym (pow-succ' 2 s))
