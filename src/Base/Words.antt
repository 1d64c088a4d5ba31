-- ===== src/Base/Words.antt =====
-- Machine integers: conversions to a width, and division that faults on a zero divisor.
use Prim.Native.Nat.{ℕ, ◌/◌, ◌%◌, ◌<◌}
use mathlib.Core.Option.{Option, none, some}
use mathlib.Core.Path.{◌≡◌}
use native.Mathlib.Omega.{arith}
use hcl.Base.Bools.{◌==◌, if◌then◌else◌}

abbrev pub uint64_max : ℕ
uint64_max = 18446744073709551615

-- conversion to uint16_t, uint32_t and uint64_t
unfoldable pub u16 : ℕ → ℕ
u16 x = x % 65536

unfoldable pub u32 : ℕ → ℕ
u32 x = x % 4294967296

unfoldable pub u64 : ℕ → ℕ
u64 x = x % 18446744073709551616

pub u16_id : (x : ℕ) → x < 65536 → u16 x ≡ x
unfolding u16
u16_id x h = omega arith

pub u64_id : (x : ℕ) → x < 18446744073709551616 → u64 x ≡ x
unfolding u64
u64_id x h = omega arith

-- `a / b` and `a % b` on unsigned integers; none is the fault on a zero divisor
unfoldable pub div? : ℕ → ℕ → Option ℕ
div? a b = if b == 0 then none else some (a / b)

unfoldable pub mod? : ℕ → ℕ → Option ℕ
mod? a b = if b == 0 then none else some (a % b)

pub div?-pos : (a b : ℕ) → 0 < b → div? a b ≡ some (a / b)
unfolding div?
div?-pos a b h = ground arith

pub mod?-pos : (a b : ℕ) → 0 < b → mod? a b ≡ some (a % b)
unfolding mod?
mod?-pos a b h = ground arith

pub mod_lt : (a n : ℕ) → 0 < n → a % n < n
mod_lt a n h = grind arith
