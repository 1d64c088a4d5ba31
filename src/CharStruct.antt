-- ===== src/CharStruct.antt =====
-- include/hcl/common/data_structures.h and src/hcl/common/data_structures.cpp: CharStruct, a string in an
-- array of 256 bytes. Its state is the text in front of the first zero byte; a text is a list of bytes. A
-- std::string may have zero bytes in it. Order proves the comparisons, Text what the constructors and the
-- concatenations keep.
pub mod Order
pub mod Text
use hcl.Base.{
  ℕ, zero, suc, ◌+◌, ◌-◌, Bool, true, false, not, List, [], ◌∷◌, ◌++◌, Option, some, none, length,
  take, ltb, ◌==◌, if◌then◌else◌, ◌>>=◌,
}

pub record CharStruct : Type 0 where
  pub value : List ℕ

-- `c_str()` of a std::string, up to its first zero byte
pub c_str : List ℕ → List ℕ
c_str [] = []
c_str (x ∷ xs) = let rest = c_str xs in if x == 0 then [] else x ∷ rest

-- `snprintf(value, size, "%s", text)`. none: the array is left without a text, or is written past its end
pub snprintf : ℕ → List ℕ → Option CharStruct
snprintf zero text = none
snprintf (suc n) text =
    let kept = take n text in if ltb (length kept) 256 then some (record { value = kept }) else none

-- the constructors
pub of_chars : List ℕ → Option CharStruct
unfolding snprintf
of_chars text = snprintf (length text + 1) text

pub of_string : List ℕ → Option CharStruct
unfolding of_chars c_str
of_string text = of_chars (c_str text)

pub of_prefix : List ℕ → ℕ → Option CharStruct
unfolding snprintf
of_prefix text size = snprintf size text

-- the copy and the move constructor, both from the array of the other object, and the assignment
pub copy_of : CharStruct → Option CharStruct
unfolding of_chars
copy_of other = of_chars other.value

pub move_of : CharStruct → Option CharStruct
unfolding of_chars
move_of other = of_chars other.value

-- `strcpy` from an array of the same length
unfoldable pub assign : CharStruct → CharStruct → CharStruct
assign a other = record { value = other.value }

-- string() and size()
unfoldable pub string : CharStruct → List ℕ
string a = a.value

unfoldable pub size : CharStruct → ℕ
size a = length a.value

-- the two functions Set
pub set_prefix : List ℕ → ℕ → Option CharStruct
unfolding snprintf
set_prefix text size = snprintf (size + 1) text

pub set_string : List ℕ → Option CharStruct
unfolding snprintf c_str
set_string text = snprintf (length text + 1) (c_str text)

-- the sign of strcmp, with the bytes as unsigned numbers
pub data Sign : Type 0 where
  negative : Sign
  null : Sign
  positive : Sign

pub strcmp : List ℕ → List ℕ → Sign
strcmp [] [] = null
strcmp [] (y ∷ ys) = negative
strcmp (x ∷ xs) [] = positive
strcmp (x ∷ xs) (y ∷ ys) =
    let rest = strcmp xs ys in if ltb x y then negative else (if ltb y x then positive else rest)

pub is_null : Sign → Bool
is_null negative = false
is_null null = true
is_null positive = false

pub is_positive : Sign → Bool
is_positive negative = false
is_positive null = false
is_positive positive = true

pub is_negative : Sign → Bool
is_negative negative = true
is_negative null = false
is_negative positive = false

-- the operators
pub equals : CharStruct → CharStruct → Bool
unfolding is_null strcmp
equals a o = is_null (strcmp a.value o.value)

pub greater : CharStruct → CharStruct → Bool
unfolding is_positive strcmp
greater a o = is_positive (strcmp a.value o.value)

pub greater_equal : CharStruct → CharStruct → Bool
unfolding is_negative strcmp
greater_equal a o = not (is_negative (strcmp a.value o.value))

pub less : CharStruct → CharStruct → Bool
unfolding is_negative strcmp
less a o = is_negative (strcmp a.value o.value)

pub less_equal : CharStruct → CharStruct → Bool
unfolding is_positive strcmp
less_equal a o = not (is_positive (strcmp a.value o.value))

pub plus : CharStruct → CharStruct → Option CharStruct
unfolding of_string
plus a o = of_string (a.value ++ o.value)

pub plus_string : CharStruct → List ℕ → Option CharStruct
unfolding of_string
plus_string a o = of_string (a.value ++ o)

pub plus_assign : CharStruct → CharStruct → Option CharStruct
unfolding set_string
plus_assign a rhs = set_string (a.value ++ rhs.value)
