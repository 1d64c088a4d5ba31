-- ===== src/ConcurrentSkiplist/Place.antt =====
-- The servers that the upper bits of a hash name, and the number of bits that initialize_sets takes.
use native.Mathlib.Nat.{
  pow-succ', pow-le-pow_right, one-le-pow, mul_assoc, mul-lt-mul_of_pos_right, mul-div_cancel,
}
use hcl.Base.{
  ℕ, zero, suc, ◌+◌, ◌-◌, ◌*◌, ◌/◌, ◌%◌, ◌^◌, ◌==◌, ◌≡◌, ◌≤◌, ◌<◌, refl, sym, ◌∙◌, ap, true, some,
  none, ltb, ltb→lt, lt→ltb, not_ltb→le, leb, if◌then◌else◌, inl, inr, Bool-cases, u32, u64, u64_id,
  and_high, arith,
}
use hcl.ConcurrentSkiplist.{
  double_up, power_of_two, positive_int, Sets, initialize_sets, server_location, shift_left,
  shift_right, is_local,
}

below_thirty : (i : ℕ) → i ≤ 30 → 2 ^ i < 1073741824 → i < 30
below_thirty i le lt = elim (Bool-cases (ltb i 30)) [
  | inl h ↦ ltb→lt i 30 h
  | inr h ↦ absurd (omega (arith, lt, ap (λ n. 2 ^ n) (only_thirty i le (not_ltb→le i 30 h))))
]
  where
    only_thirty : (i : ℕ) → i ≤ 30 → 30 ≤ i → i ≡ 30
    only_thirty i le ge = omega arith

some_bit : (j : ℕ) → 2 ≤ 2 ^ j → 0 < j
some_bit zero h = absurd (omega arith)
some_bit (suc j) h = omega arith

double_up-power :
    (fuel i n : ℕ)
    → n ≤ 1073741824
    → i ≤ 30
    → 31 ≤ fuel + i
    → (j : ℕ) × (double_up fuel n (2 ^ i) ≡ some (2 ^ j)) × (j ≤ 30) × (n ≤ 2 ^ j)
unfolding double_up
double_up-power zero i n small below enough = absurd (omega arith)
double_up-power (suc fuel) i n small below enough = elim (Bool-cases (ltb (2 ^ i) n)) [
  | inl more ↦
      let low = below_thirty i below (omega (arith, ltb→lt _ _ more)) in
      let room : 2 ^ suc i ≤ 1073741824 =
        pow-le-pow_right {n = 2} (omega arith) {i = suc i} {j = 30} low in
      let (j, run, top, covers) = double_up-power fuel (suc i) n small low (omega arith) in
      (
        j,
        rw (more, lt→ltb (2 * 2 ^ i) 2147483648 (omega (arith, room, pow-succ' 2 i)))
            (ap (double_up fuel n) (sym (pow-succ' 2 i)) ∙ run),
        top,
        covers,
      )
  | inr stop ↦ (i, rw stop refl, below, not_ltb→le (2 ^ i) n stop)
]

-- what initialize_sets makes for 2 to 2^30 servers, where log2 is exact on powers of two
pub initialized :
    (log2 : ℕ → ℕ) (np : ℕ)
    → ((i : ℕ) → i ≤ 30 → log2 (2 ^ i) ≡ i)
    → 2 ≤ np
    → np ≤ 1073741824
    → (nbits : ℕ) × ((rank : ℕ)
        → initialize_sets log2 np rank
          ≡ some (record { nservers = np; serverid = rank; nbits = nbits }))
      × (0 < nbits)
      × (nbits ≤ 30)
      × (np ≤ 2 ^ nbits)
unfolding initialize_sets positive_int power_of_two
initialized log2 np exact two few =
    let (j, run, top, covers) = double_up-power 32 0 np few (omega arith) (omega arith) in
    (
      j,
      λ rank. rw (lt→ltb np 2147483648 (omega arith), run, exact j top) refl,
      some_bit j (omega (arith, two, covers)),
      top,
      covers,
    )

-- the number that the upper bits name, or the last server
unfoldable pub clamp : ℕ → ℕ → ℕ
clamp nservers id = if leb nservers id then u32 (nservers + 4294967295) else id

pub server_location-clamp :
    (sets : Sets) (hash : ℕ)
    → 0 < sets.nbits
    → sets.nbits ≤ 30
    → server_location sets hash ≡ some (clamp sets.nservers (u64 hash / 2 ^ (64 - sets.nbits)))
unfolding server_location shift_left shift_right clamp u64
server_location-clamp sets hash pos few =
    let s = 64 - sets.nbits in
    let shift : (64 + (18446744073709551616 - sets.nbits % 18446744073709551616))
          % 18446744073709551616
        ≡ s =
      omega arith in
    let width : s + sets.nbits ≡ 64 = omega arith in
    let whole : 2 ^ (s + sets.nbits) ≡ 18446744073709551616 = ap (λ n. 2 ^ n) width in
    let half : 2 ^ s ≤ 2 ^ 63 =
      pow-le-pow_right {n = 2} (omega arith) {i = s} {j = 63} (omega arith) in
    let mask : 18446744073709551615 * 2 ^ s % 18446744073709551616 ≡ 2 ^ (s + sets.nbits) - 2 ^ s =
      omega (arith, whole, half, one-le-pow s 2) in
    rw
      (
        shift,
        lt→ltb s 64 (omega arith),
        mask,
        and_high s sets.nbits (hash % 18446744073709551616) (omega (arith, whole)),
      )
      refl

pub clamp-lt : (n id : ℕ) → 0 < n → n ≤ 1073741824 → clamp n id < n
unfolding clamp u32
clamp-lt n id pos few = ground arith

clamp_id : (n id : ℕ) → id < n → clamp n id ≡ id
unfolding clamp
clamp_id n id lt = ground arith

pow_add : (m n : ℕ) → 2 ^ (m + n) ≡ 2 ^ m * 2 ^ n
pow_add zero n = omega (arith, ap (λ k. 2 ^ k) (zero_add n))
  where
    zero_add : (n : ℕ) → 0 + n ≡ n
    zero_add n = omega arith
pow_add (suc m) n =
    ap (λ k. 2 ^ k) (suc_add m n)
    ∙ pow-succ' 2 (m + n)
    ∙ ap (λ k. 2 * k) (pow_add m n)
    ∙ sym (mul_assoc 2 (2 ^ m) (2 ^ n))
    ∙ ap (λ k. k * 2 ^ n) (sym (pow-succ' 2 m))
  where
    suc_add : (m n : ℕ) → suc m + n ≡ suc (m + n)
    suc_add m n = omega arith

-- a hash whose upper bits are a number
upper :
    (nbits i : ℕ)
    → 0 < nbits
    → nbits ≤ 30
    → i < 2 ^ nbits
    → (hash : ℕ) × (u64 hash / 2 ^ (64 - nbits) ≡ i)
upper nbits i pos few lt =
    let s = 64 - nbits in
    let width : nbits + s ≡ 64 = omega arith in
    let whole : 2 ^ (nbits + s) ≡ 18446744073709551616 = ap (λ n. 2 ^ n) width in
    let fits : i * 2 ^ s < 18446744073709551616 = omega (
      arith,
      mul-lt-mul_of_pos_right {k = 2 ^ s} lt (one-le-pow s 2 (omega arith)),
      whole,
      pow_add nbits s,
    ) in
    (i * 2 ^ s, rw (u64_id (i * 2 ^ s) fits) (mul-div_cancel i (one-le-pow s 2 (omega arith))))

-- Where log2 is exact on powers of two, initialize_sets succeeds for 2 to 2^30 servers, whatever the
-- rank; then serverLocation names one of the servers for every hash, and a given one, `target`, for some
-- hash; and isLocal holds of a hash on the server whose number that is, and on no other one.
pub server_location-covers :
    (log2 : ℕ → ℕ) (np rank target : ℕ)
    → ((i : ℕ) → i ≤ 30 → log2 (2 ^ i) ≡ i)
    → 2 ≤ np
    → np ≤ 1073741824
    → target < np
    → (sets : Sets) × (initialize_sets log2 np rank ≡ some sets)
      × ((hash : ℕ)
          → (i : ℕ) × (server_location sets hash ≡ some i)
            × (i < np)
            × (is_local true sets hash ≡ some (i == rank)))
      × (hash : ℕ) × (server_location sets hash ≡ some target)
unfolding is_local
server_location-covers log2 np rank target exact two few lt =
    let (nbits, made, pos, top, covers) = initialized log2 np exact two few in
    let sets : Sets = record { nservers = np; serverid = rank; nbits = nbits } in
    let (hash, e) = upper nbits target pos top (omega (arith, lt, covers)) in
    (
      sets,
      made rank,
      λ hash.
          let i = clamp np (u64 hash / 2 ^ (64 - nbits)) in
          let at = server_location-clamp sets hash pos top in
          (i, at, clamp-lt np _ (omega arith) few, rw at refl),
      hash,
      server_location-clamp sets hash pos top ∙ rw (e, clamp_id np target lt) refl,
    )

-- With one server, initialize_sets takes no bits of the hash, where log2 is exact on powers of two, and
-- serverLocation shifts by all 64 bits, which has no defined result, for every hash.
pub server_location-alone :
    (log2 : ℕ → ℕ) (rank : ℕ)
    → ((i : ℕ) → i ≤ 30 → log2 (2 ^ i) ≡ i)
    → (sets : Sets) × (initialize_sets log2 1 rank ≡ some sets)
      × ((hash : ℕ) → server_location sets hash ≡ none)
unfolding initialize_sets positive_int power_of_two double_up server_location shift_left u64
server_location-alone log2 rank exact = (
  record { nservers = 1; serverid = rank; nbits = 0 },
  rw (exact 0 (omega arith)) refl,
  λ hash. refl,
)
