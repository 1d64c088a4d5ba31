-- ===== src/Partition/Setup.antt =====
-- When the servers come up, and how their ranges lie in the table.
use hcl.Base.{
  inr, inl, Option-cases, ℕ, ap, ◌+◌, ◌/◌, ◌%◌, ◌≡◌, ◌<◌, ◌≤◌, sym, arith, some, div?, mod?,
  uint64_max, mod_lt, ◌∙◌,
}
use hcl.Partition.{Range, initialize_tables, max_size_of}
use hcl.Partition.Ranges.{start_at, start-next, start-end, div-mod}
use hcl.Partition.Owner.{initialize_tables-IsCut, range_end}

quotient_pos : (n np : ℕ) → 0 < np → np ≤ n → 0 < n / np
quotient_pos n np pos le = grind arith

-- one slot for each server is enough for every server to come up
pub initialize_tables-total :
    (n np rank : ℕ)
    → 0 < np
    → np ≤ n
    → n < uint64_max
    → rank < np
    → (r : Range) × (initialize_tables n np rank ≡ some r)
      × (0 < r.max_size)
      × (r.max_size < uint64_max)
unfolding initialize_tables max_size_of div? mod?
initialize_tables-total n np rank pos le hi lt = elim (Option-cases (initialize_tables n np rank)) [
  | inl fails ↦ absurd (ground (arith, quotient_pos n np pos le, range_end n np rank pos lt))
  | inr (r, e) ↦
      let c = initialize_tables-IsCut n np rank r lt e in
      (
        r,
        e,
        ground (arith, c.size, quotient_pos n np pos le),
        ground (arith, c.size, range_end n np rank pos lt),
      )
]

-- On a table of fewer than UINT64_MAX slots, at least one for each server, initialize_tables succeeds on
-- each server, and the ranges tile the table: the first one starts at slot 0, each further one starts
-- where the one before it ends, and the last one ends at the size of the table.
pub initialize_tables-tiles :
    (n np rank : ℕ)
    → 0 < np
    → np ≤ n
    → n < uint64_max
    → rank < np
    → (r : Range) × (initialize_tables n np rank ≡ some r)
      × (rank ≡ 0 → r.min_range ≡ 0)
      × ((s : Range)
          → rank + 1 < np
          → initialize_tables n np (rank + 1) ≡ some s
          → s.min_range ≡ r.max_range)
      × (rank + 1 ≡ np → r.max_range ≡ n)
initialize_tables-tiles n np rank pos le hi lt =
    let (r, e, _, _) = initialize_tables-total n np rank pos le hi lt in
    let c = initialize_tables-IsCut n np rank r lt e in
    let next = start-next (n / np) (n % np) rank in
    let end = start-end (n / np) (n % np) np in
    (
      r,
      e,
      λ first. ground (arith, c.first),
      λ s more t. (initialize_tables-IsCut n np (rank + 1) s more t).first ∙ next ∙ sym c.last,
      λ last.
          c.last
          ∙ sym next
          ∙ ap (start_at (n / np) (n % np)) last
          ∙ end (omega (arith, mod_lt n np pos))
          ∙ sym (div-mod n np pos),
    )
