-- ===== src/GlobalClock/Times.antt =====
-- What the calls for the time answer.
use native.Mathlib.Nat.{div-le_self, mul_comm, lt-mul-div-succ, le-div_iff_mul-le, div-mul-le_self}
use hcl.Base.{
  ℕ, ◌+◌, ◌-◌, ◌*◌, ◌/◌, ◌≡◌, ◌≤◌, ◌<◌, refl, ◌∙◌, subst, true, List, Option, some, get_elem?,
  get_elem?-lt, set-same, Bool-cases, inl, inr, ◌==◌, ==_iff, leb, div?-pos, u64_id, arith,
}
use hcl.Container.{Network}
use hcl.Container.Calls.{run_at-set}
use hcl.GlobalClock.{GlobalClock, microseconds, local_get_time, get_time, get_time_server}

-- the microseconds at a reading behind the start
elapsed :
    (ticks now start : ℕ)
    → 0 < ticks
    → start ≤ now
    → now < 18446744073709551616
    → microseconds ticks now start ≡ some ((now - start) / ticks)
unfolding microseconds
elapsed ticks now start pos le lt =
    let behind : leb start now ≡ true = ground arith in
    let small = div-le_self (now - start) ticks in
    rw (behind, div?-pos (now - start) ticks pos, u64_id ((now - start) / ticks) (omega arith)) refl

div_mono : (n m ticks : ℕ) → 0 < ticks → n ≤ m → n / ticks ≤ m / ticks
div_mono n m ticks pos le =
    (le-div_iff_mul-le {k = ticks} {x = n / ticks} {y = m} pos).1
      (omega (arith, div-mul-le_self n ticks))

module _ (starts : ℕ → Option ℕ) (servers : List GlobalClock) (server : ℕ) (clock : GlobalClock)
    (segment start : ℕ) where
  -- The clock of a server, in its segment, with its start. If two servers on a node make clocks of one
  -- name, a later segment takes the path of an earlier one, and `Shares` fails for clients of the earlier.
  pub record Keeps : Type 0 where
    pub there : get_elem? servers server ≡ some clock
    pub own_segment : clock.segment ≡ some segment
    pub started : starts segment ≡ some start

-- a client on the node of that server has mapped the segment `segment`
unfoldable pub Shares : ℕ → ℕ → GlobalClock → Type 0
Shares server segment g = g.my_server ≡ server → g.server_on_node ≡ true → g.segment ≡ some segment

module _ (net : Network GlobalClock) (ticks : ℕ) (starts : ℕ → Option ℕ)
    (servers : List GlobalClock) (server : ℕ) (clock : GlobalClock) (segment start : ℕ) where
  local_time :
      (g : GlobalClock) (now t : ℕ)
      → g.segment ≡ some segment
      → starts segment ≡ some start
      → microseconds ticks now start ≡ some t
      → local_get_time ticks starts now g ≡ some (t, g)
  unfolding local_get_time
  local_time g now t mapped started told = rw (mapped, started, told) refl

  delivered :
      (now t : ℕ)
      → Keeps starts servers server clock segment start
      → microseconds ticks now start ≡ some t
      → (net.rpc (local_get_time ticks starts)).deliver servers server now ≡ some (t, servers)
  delivered now t k told =
      let method = local_get_time ticks starts in
      (net.rpc method).deliver-run_at servers server now (get_elem?-lt servers server clock k.there)
      ∙ run_at-set method servers server now clock clock t k.there
          (local_time clock now t k.own_segment k.started told)
      ∙ rw (set-same servers server clock k.there) refl

  time_at_server :
      (g : GlobalClock) (now t : ℕ)
      → Keeps starts servers server clock segment start
      → Shares server segment g
      → microseconds ticks now start ≡ some t
      → get_time_server ticks starts net g servers server now ≡ some (t, servers)
  unfolding get_time_server Shares
  time_at_server g now t k shares told = elim (Bool-cases (g.my_server == server)) [
    | inr other ↦ rw other (delivered now t k told)
    | inl same ↦ elim (Bool-cases g.server_on_node) [
      | inr far ↦ rw (same, far) (delivered now t k told)
      | inl near ↦ rw (same, near, shares ((==_iff _ _).0 same) near, k.started, told) refl
    ]
  ]

  time_here :
      (g : GlobalClock) (now t : ℕ)
      → Keeps starts servers server clock segment start
      → Shares server segment g
      → g.my_server ≡ server
      → microseconds ticks now start ≡ some t
      → get_time ticks starts net g servers now ≡ some (t, servers)
  unfolding get_time Shares
  time_here g now t k shares own told = elim (Bool-cases g.server_on_node) [
    | inr far ↦ rw (far, own) (delivered now t k told)
    | inl near ↦ rw (near, shares own near, k.started, told) refl
  ]

-- The clock of a server is read twice, for two clients, at readings that do not fall, none of them
-- before the start of that server nor at 2^64 or later; each client is another server's, or not on
-- the node of its server, or it has mapped the segment of that server's clock. Then both calls of
-- GetTimeServer return and change nothing; the second answer is not less than the first; the first
-- one is the whole number of microseconds since the start, and a client of that server, with the
-- same condition, gets it from GetTime.
pub get_time_server_mono :
    (net : Network GlobalClock) (ticks : ℕ) (starts : ℕ → Option ℕ) (c c' own : GlobalClock)
    (servers : List GlobalClock) (server : ℕ) (clock : GlobalClock) (segment start now now' : ℕ)
    → 0 < ticks
    → Keeps starts servers server clock segment start
    → Shares server segment c × Shares server segment c' × Shares server segment own
    → (start ≤ now) × (now ≤ now') × (now' < 18446744073709551616)
    → own.my_server ≡ server
    → (t t' : ℕ) × (get_time_server ticks starts net c servers server now ≡ some (t, servers))
      × (get_time_server ticks starts net c' servers server now' ≡ some (t', servers))
      × (get_time ticks starts net own servers now ≡ some (t, servers))
      × (t ≤ t')
      × (t * ticks ≤ now - start)
      × (now - start < (t + 1) * ticks)
get_time_server_mono net ticks starts c c' own servers server clock segment start now now' pos keeps
      (share, share', share'') (le, le', lt) near =
    let first = elapsed ticks now start pos le (omega arith) in
    let second = elapsed ticks now' start pos (omega arith) lt in
    (
      (now - start) / ticks,
      (now' - start) / ticks,
      time_at_server net ticks starts servers server clock segment start c now _ keeps share first,
      time_at_server net ticks starts servers server clock segment start c' now' _ keeps share'
          second,
      time_here net ticks starts servers server clock segment start own now _ keeps share'' near
          first,
      div_mono (now - start) (now' - start) ticks pos (omega arith),
      div-mul-le_self (now - start) ticks,
      subst (λ x. now - start < x) (mul_comm ticks ((now - start) / ticks + 1))
          (lt-mul-div-succ (now - start) pos),
    )
