-- ===== src/Partition/Ranges.antt =====
-- Arithmetic of the ranges: where the range of a server starts, that the ranges follow one another
-- without a gap, and which of them a slot falls into.
use hcl.Base.{
  ℕ, zero, suc, ◌+◌, ◌-◌, ◌*◌, ◌/◌, ◌%◌, ◌≡◌, ◌<◌, ◌≤◌, ltb, ltb→lt, not_ltb→le, if◌then◌else◌,
  arith, inl, inr, Bool-cases,
}

-- the size and the first slot of range `k`, in unbounded arithmetic
abbrev pub size_at : ℕ → ℕ → ℕ → ℕ
size_at ls rem k = if ltb k rem then ls + 1 else ls

abbrev pub start_at : ℕ → ℕ → ℕ → ℕ
start_at ls rem k = if ltb k rem then k * (ls + 1) else rem * (ls + 1) + (k - rem) * ls

abbrev pub slot_owner : ℕ → ℕ → ℕ → ℕ
slot_owner ls rem v =
    if ltb v (rem * (ls + 1)) then v / (ls + 1) else rem + (v - rem * (ls + 1)) / ls

pub div-mod : (n np : ℕ) → 0 < np → n ≡ (n / np) * np + n % np
div-mod n np h = grind arith

div_lower : (v c : ℕ) → 0 < c → (v / c) * c ≤ v
div_lower v c h = grind arith

div_upper : (v c : ℕ) → 0 < c → v < (v / c) * c + c
div_upper v c h = grind arith

div_below : (v c r : ℕ) → 0 < c → v < r * c → v / c < r
div_below v c r h k = grind arith

mul_step : (a b c : ℕ) → a < b → a * c + c ≤ b * c
mul_step a b c h = grind arith

add_sub : (a b : ℕ) → a + b - a ≡ b
add_sub a b = omega arith

suc-sub : (rem k : ℕ) → rem ≤ k → k + 1 - rem ≡ (k - rem) + 1
suc-sub rem k h = omega arith

mul_split : (a b c : ℕ) → a ≤ b → b * c ≡ a * c + (b - a) * c
mul_split a b c h = grind arith

mul_next : (rem k c : ℕ) → rem ≤ k → (k + 1 - rem) * c ≡ (k - rem) * c + c
mul_next rem k c h = rw (suc-sub rem k h) (omega arith)

pub start-next : (ls rem k : ℕ) → start_at ls rem (k + 1) ≡ start_at ls rem k + size_at ls rem k
start-next ls rem k = ground (arith, mul_next rem k ls)

-- an earlier range ends where a later one starts, or before
pub start-order :
    (ls rem a b : ℕ) → a < b → start_at ls rem a + size_at ls rem a ≤ start_at ls rem b
start-order ls rem a b h =
    ground (arith, mul_step a b (ls + 1), mul_step (a - rem) (b - rem) ls, mul_step a rem (ls + 1))

-- the last range ends at the table's size
pub start-end : (ls rem np : ℕ) → rem ≤ np → start_at ls rem np ≡ ls * np + rem
start-end ls rem np h = grind arith

abbrev pub Owns : ℕ → ℕ → ℕ → ℕ → ℕ → Type 0
Owns ls rem np v k = (k < np) × (start_at ls rem k ≤ v) × (v < start_at ls rem k + size_at ls rem k)

early : (ls rem np v : ℕ) → rem < np → v < rem * (ls + 1) → Owns ls rem np v (v / (ls + 1))
early ls rem np v h k = ground (
  arith,
  div_below v (ls + 1) rem (omega arith) k,
  div_lower v (ls + 1) (omega arith),
  div_upper v (ls + 1) (omega arith),
)

late_width :
    (ls rem np v : ℕ)
    → rem < np
    → rem * (ls + 1) ≤ v
    → v < ls * np + rem
    → v - rem * (ls + 1) < (np - rem) * ls
late_width ls rem np v h k b = omega (arith, mul_split rem np ls (omega arith))

pos_of_lt_mul : (a b c : ℕ) → a < b * c → 0 < c
pos_of_lt_mul a b zero h = absurd (omega arith)
pos_of_lt_mul a b (suc c) h = omega arith

late :
    (ls rem np v : ℕ)
    → rem < np
    → rem * (ls + 1) ≤ v
    → v < ls * np + rem
    → Owns ls rem np v (rem + (v - rem * (ls + 1)) / ls)
late ls rem np v h k b =
    let w = late_width ls rem np v h k b in
    let pos = pos_of_lt_mul _ _ ls w in
    ground (
      arith,
      div_below (v - rem * (ls + 1)) ls (np - rem) pos w,
      div_lower (v - rem * (ls + 1)) ls pos,
      div_upper (v - rem * (ls + 1)) ls pos,
      add_sub rem ((v - rem * (ls + 1)) / ls),
    )

pub slot_owner-range :
    (ls rem np v : ℕ) → rem < np → v < ls * np + rem → Owns ls rem np v (slot_owner ls rem v)
slot_owner-range ls rem np v h k = elim (Bool-cases (ltb v (rem * (ls + 1)))) [
  | inl e ↦ rw e (early ls rem np v h (ltb→lt _ _ e))
  | inr e ↦ rw e (late ls rem np v h (not_ltb→le _ _ e) k)
]
