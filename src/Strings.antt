-- ===== src/Strings.antt =====
-- What the sources use of std::string, of getline on a file and of atoi. A text is a list of bytes.
-- Find has the laws of the searches, Numbers those of the decimal numbers, Lines those of getline.
pub mod Find
pub mod Numbers
pub mod Lines
use hcl.Base.{
  ℕ, zero, suc, ◌+◌, ◌-◌, ◌*◌, ◌/◌, ◌%◌, ◌^◌, Bool, true, false, not, ◌&&◌, ◌||◌, List, [], ◌∷◌,
  Option, some, none, length, take, drop, ltb, leb, ◌==◌, if◌then◌else◌,
}

pub data ℤ : Type 0 where
  pos : ℕ → ℤ
  negsuc : ℕ → ℤ

-- a byte stands nowhere in a text
unfoldable pub lacks : ℕ → List ℕ → Bool
lacks c [] = true
lacks c (x ∷ xs) = not (x == c) && lacks c xs

pub starts_with : List ℕ → List ℕ → Bool
starts_with [] text = true
starts_with (p ∷ ps) [] = false
starts_with (p ∷ ps) (x ∷ xs) = p == x && starts_with ps xs

-- two texts are the same
unfoldable pub same_text : List ℕ → List ℕ → Bool
same_text [] [] = true
same_text [] (y ∷ ys) = false
same_text (x ∷ xs) [] = false
same_text (x ∷ xs) (y ∷ ys) = x == y && same_text xs ys

abbrev pub next_place : Option ℕ → Option ℕ
next_place none = none
next_place (some n) = some (suc n)

-- `text.find(pattern)`; none: npos
unfoldable pub find : List ℕ → List ℕ → Option ℕ
unfolding starts_with
find pattern [] = if starts_with pattern [] then some 0 else none
find pattern (x ∷ xs) =
    let rest = next_place (find pattern xs) in if starts_with pattern (x ∷ xs) then some 0 else rest

-- `text.substr(first, n)`; none: std::out_of_range
unfoldable pub substr : List ℕ → ℕ → ℕ → Option (List ℕ)
unfolding drop
substr text first n = if leb first (length text) then some (take n (drop first text)) else none

-- std::to_string
pub digits : ℕ → ℕ → List ℕ → List ℕ
digits zero n out = out
digits (suc f) n out =
    let last = b'0' + n % 10 in
    let rest = digits f (n / 10) (last ∷ out) in if ltb n 10 then last ∷ out else rest

unfoldable pub to_string : ℕ → List ℕ
unfolding digits
to_string n = digits (suc n) n []

unfoldable pub is_digit : ℕ → Bool
is_digit c = leb b'0' c && leb c b'9'

pub is_space : ℕ → Bool
is_space c = c == 32 || (leb 9 c && leb c 13)

pub skip_space : List ℕ → List ℕ
unfolding is_space
skip_space [] = []
skip_space (c ∷ s) = let rest = skip_space s in if is_space c then rest else c ∷ s

-- the number that the digits at the front spell behind `n`
pub number : List ℕ → ℕ → ℕ
unfolding is_digit
number [] n = n
number (c ∷ s) n = let rest = number s (n * 10 + (c - b'0')) in if is_digit c then rest else n

-- none: outside the range of int, where the C library leaves the result open
pub positive_number : ℕ → Option ℤ
positive_number n = if ltb n (2 ^ 31) then some (pos n) else none

pub negative_number : ℕ → Option ℤ
negative_number zero = some (pos 0)
negative_number (suc n) = if ltb n (2 ^ 31) then some (negsuc n) else none

pub signed_number : List ℕ → Option ℤ
unfolding number positive_number negative_number
signed_number [] = some (pos 0)
signed_number (c ∷ s) =
    if c == b'-'
    then negative_number (number s 0)
    else (if c == b'+' then positive_number (number s 0) else positive_number (number (c ∷ s) 0))

unfoldable pub atoi : List ℕ → Option ℤ
unfolding skip_space signed_number
atoi text = signed_number (skip_space text)

pub put_front : ℕ → List (List ℕ) → List (List ℕ)
put_front c [] = (c ∷ []) ∷ []
put_front c (line ∷ lines) = (c ∷ line) ∷ lines

-- the lines that `while (getline(file, line))` reads
unfoldable pub get_lines : List ℕ → List (List ℕ)
unfolding put_front
get_lines [] = []
get_lines (c ∷ s) = let rest = get_lines s in if c == b'\n' then [] ∷ rest else put_front c rest
