-- ===== src/Partition/Owner.antt =====
-- Who owns a slot: serverLocation on a client against isLocal on the servers.
use hcl.Base.{
  ℕ, zero, suc, ap, ◌+◌, ◌*◌, ◌/◌, ◌%◌, ◌≡◌, ◌<◌, ◌≤◌, refl, ◌==◌, arith, Bool, ◌&&◌, some, div?,
  mod?, u64, uint64_max, mod_lt,
}
use hcl.Partition.{Range, initialize_tables, is_local, location, server_location}
use hcl.Partition.Ranges.{
  size_at, start_at, start-order, start-end, slot_owner, slot_owner-range, Owns, div-mod,
}

-- what a successful initialize_tables leaves behind, in unbounded arithmetic
pub record IsCut (n np rank : ℕ) (r : Range) : Type 0 where
  pub size_pos : 0 < n
  pub size_max : n < uint64_max
  pub servers_pos : 0 < np
  pub total : r.total_size ≡ n
  pub size : r.max_size ≡ size_at (n / np) (n % np) rank
  pub first : r.min_range ≡ start_at (n / np) (n % np) rank
  pub last : r.max_range ≡ start_at (n / np) (n % np) rank + size_at (n / np) (n % np) rank

pub range_end :
    (n np rank : ℕ)
    → 0 < np
    → rank < np
    → start_at (n / np) (n % np) rank + size_at (n / np) (n % np) rank ≤ n
range_end n np rank pos h = omega (
  arith,
  start-order (n / np) (n % np) rank np h,
  start-end (n / np) (n % np) np,
  div-mod n np pos,
)

pub initialize_tables-IsCut :
    (n np rank : ℕ) (r : Range)
    → rank < np
    → initialize_tables n np rank ≡ some r
    → IsCut n np rank r
unfolding initialize_tables u64 div? mod?
initialize_tables-IsCut n np rank r h e = ground (arith, range_end n np rank)

mul_mono : (a b c : ℕ) → a ≤ b → a * c ≤ c * b
mul_mono a b c h = grind arith

pub owner : ℕ → ℕ → ℕ → ℕ
owner n np h = slot_owner (n / np) (n % np) (h % n)

owner-Owns : (n np h : ℕ) → 0 < n → 0 < np → Owns (n / np) (n % np) np (h % n) (owner n np h)
unfolding owner
owner-Owns n np h pos npos =
    slot_owner-range (n / np) (n % np) np (h % n) (mod_lt n np npos)
      (omega (arith, div-mod n np npos, mod_lt h n pos))

-- the slots of the larger ranges are slots of the table
offset-le : (n np : ℕ) → 0 < np → (n % np) * (n / np + 1) ≤ n
offset-le n np pos =
    omega (arith, mul_mono (n % np) np (n / np) (omega (arith, mod_lt n np pos)), div-mod n np pos)

pub owner-small : (n np h : ℕ) → 0 < n → 0 < np → owner n np h < np
owner-small n np h pos npos = (owner-Owns n np h pos npos).0

-- behind the larger ranges there are slots only if the smaller ones are not empty
later_pos : (n np h : ℕ) → 0 < n → 0 < np → (n % np) * (n / np + 1) ≤ h % n → 0 < n / np
later_pos n np h pos npos le = positive (n / np) refl
  where
    positive : (q : ℕ) → n / np ≡ q → 0 < q
    positive zero e = absurd (
        omega (
          arith,
          div-mod n np npos,
          mod_lt h n pos,
          ap (λ t. (n % np) * (t + 1)) e,
          ap (λ t. t * np) e,
        ))
    positive (suc q) e = omega arith

-- on a valid table the client's computation divides by no zero and does not wrap
pub server_location-owner :
    (n np h : ℕ) → 0 < n → n < uint64_max → 0 < np → server_location np n h ≡ some (owner n np h)
unfolding server_location location div? mod? u64 owner
server_location-owner n np h pos hi npos = ground (
  arith,
  mod_lt h n pos,
  mod_lt n np npos,
  offset-le n np npos,
  div-mod n np npos,
  owner-small n np h pos npos,
  later_pos n np h pos npos,
)

-- The server that serverLocation names for a key is one of the np servers; among servers that
-- initialize_tables has set up with one table size and one server count, isLocal holds on that
-- server, on no other one, and nowhere off a server.
pub server_location-is_local :
    (n np hashval rank : ℕ) (is_server : Bool) (r : Range)
    → rank < np
    → initialize_tables n np rank ≡ some r
    → (id : ℕ) × (server_location np n hashval ≡ some id)
      × (id < np)
      × (is_local is_server r hashval ≡ some (is_server && (id == rank)))
unfolding is_local mod?
server_location-is_local n np h rank is_server r lt e =
    let c = initialize_tables-IsCut n np rank r lt e in
    let o = owner-Owns n np h c.size_pos c.servers_pos in
    (
      owner n np h,
      server_location-owner n np h c.size_pos c.size_max c.servers_pos,
      o.0,
      ground (
        arith,
        mod_lt h n c.size_pos,
        start-order (n / np) (n % np) rank (owner n np h),
        start-order (n / np) (n % np) (owner n np h) rank,
      ),
    )
