-- ===== src/Strings/Numbers.antt =====
-- Decimal numbers, printed by std::to_string and read by atoi.
use hcl.Base.{
  ℕ, zero, suc, ◌+◌, ◌*◌, ◌/◌, ◌%◌, ◌^◌, ◌≡◌, ◌<◌, refl, Bool, true, ◌&&◌, List, [], ◌∷◌, some,
  lt→ltb, length, ◌≤◌, arith,
}
use hcl.Strings.{
  pos, lacks, digits, to_string, is_digit, is_space, skip_space, number, positive_number,
  signed_number, atoi,
}

all_digits : List ℕ → Bool
all_digits [] = true
all_digits (c ∷ s) = is_digit c && all_digits s

digits-all : (f n : ℕ) (out : List ℕ) → all_digits out ≡ true → all_digits (digits f n out) ≡ true
unfolding digits all_digits is_digit
digits-all zero n out e = e
digits-all (suc f) n out e = ground (arith, digits-all f (n / 10) ((b'0' + n % 10) ∷ out))

-- reading the digits of `n` gives `n`
number-digits : (f n : ℕ) (out : List ℕ) → n < f → number (digits f n out) 0 ≡ number out n
unfolding digits number is_digit
number-digits zero n out lt = elim lt [ ]
number-digits (suc f) n out lt = ground (arith, number-digits f (n / 10) ((b'0' + n % 10) ∷ out))

skip_space-digits : (s : List ℕ) → all_digits s ≡ true → skip_space s ≡ s
unfolding skip_space is_space all_digits is_digit
skip_space-digits [] e = refl
skip_space-digits (c ∷ s) e = ground arith

signed_number-digits :
    (s : List ℕ) → all_digits s ≡ true → signed_number s ≡ positive_number (number s 0)
unfolding signed_number all_digits is_digit positive_number number
signed_number-digits [] e = refl
signed_number-digits (c ∷ s) e = ground arith

to_string-all : (n : ℕ) → all_digits (to_string n) ≡ true
unfolding to_string all_digits
to_string-all n = digits-all (suc n) n [] refl

pub atoi-to_string : (n : ℕ) → n < 2 ^ 31 → atoi (to_string n) ≡ some (pos n)
unfolding atoi positive_number
atoi-to_string n lt =
    let all = to_string-all n in
    rw (skip_space-digits (to_string n) all, signed_number-digits (to_string n) all)
      (unfold to_string in
        rw (number-digits (suc n) n [] (omega arith))
          (unfold number in rw (lt→ltb n (2 ^ 31) lt) refl))

-- a byte that is no digit stands in no number
all_digits-lacks :
    (c : ℕ) (s : List ℕ) → is_digit c ≡ Bool.false → all_digits s ≡ true → lacks c s ≡ true
unfolding all_digits is_digit lacks
all_digits-lacks c [] no_digit e = refl
all_digits-lacks c (x ∷ s) no_digit e = ground (arith, all_digits-lacks c s)

pub lacks-to_string : (c n : ℕ) → is_digit c ≡ Bool.false → lacks c (to_string n) ≡ true
lacks-to_string c n no_digit = all_digits-lacks c (to_string n) no_digit (to_string-all n)

pub lacks_nul-to_string : (n : ℕ) → lacks 0 (to_string n) ≡ true
unfolding is_digit
lacks_nul-to_string n = lacks-to_string 0 n refl

-- the first number with more than `k` digits
power_of_ten : ℕ → ℕ
power_of_ten zero = 1
power_of_ten (suc k) = 10 * power_of_ten k

length-digits :
    (k f n : ℕ) (out : List ℕ)
    → n < power_of_ten (suc k)
    → length (digits f n out) ≤ suc k + length out
unfolding digits power_of_ten
length-digits k zero n out lt = omega arith
length-digits zero (suc f) n out lt = ground arith
length-digits (suc k) (suc f) n out lt =
    ground (arith, length-digits k f (n / 10) ((b'0' + n % 10) ∷ out))

pub length-to_string : (n : ℕ) → n < 65536 → length (to_string n) ≤ 5
unfolding to_string power_of_ten
length-to_string n lt = length-digits 4 (suc n) n [] (omega arith)
