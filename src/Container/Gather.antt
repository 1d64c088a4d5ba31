-- ===== src/Container/Gather.antt =====
-- Contains and GetAllData: the own server first, and then every other one.
use hcl.Base.{
  ℕ, zero, suc, ◌+◌, ◌≡◌, ◌≤◌, ◌<◌, refl, ◌∙◌, ap, Bool, List, [], ◌∷◌, ◌++◌, Option, some, none,
  length, get_elem?, set-same, get_elem?-total, get_elem?-lt, if◌then◌else◌, ◌==◌, Bool-cases, inl,
  inr, arith, filter, hits, hits-append, leb, ltb, ◌&&◌,
}
use hcl.Container.{Container, Rpc, run_at, is_local, in_server, other_servers, gather}
use hcl.Container.Calls.{run_at-set}

module _ {S E : Type 0} (f : S → List E) where
  -- the elements of all servers, in the order of their numbers
  unfoldable pub all_of : List S → List E
  all_of [] = []
  all_of (s ∷ ss) = f s ++ all_of ss

  found_at : Option S → List E
  found_at none = []
  found_at (some s) = f s

module _ {S Req E : Type 0} (c : Container) (method : Req → S → Option (List E × S))
    (rpc : Rpc method) (req : Req) (f : S → List E)
    (reads : (s : S) → method req s ≡ some (f s, s)) where
  read_at :
      (servers : List S) (i : ℕ) (s : S)
      → get_elem? servers i ≡ some s
      → run_at method servers i req ≡ some (f s, servers)
  read_at servers i s at =
      run_at-set method servers i req s s (f s) at (reads s)
      ∙ ap (λ ss. some (f s, ss)) (set-same servers i s at)

  deliver_at :
      (servers : List S) (i : ℕ) (s : S)
      → get_elem? servers i ≡ some s
      → rpc.deliver servers i req ≡ some (f s, servers)
  deliver_at servers i s at =
      rpc.deliver-run_at servers i req (get_elem?-lt servers i s at) ∙ read_at servers i s at

  -- what the servers from number `i` on hold for a test, all of them or all but the caller's
  spanned : (E → Bool) → List S → ℕ → ℕ → ℕ
  spanned p servers zero i = 0
  spanned p servers (suc n) i =
      hits p (found_at f (get_elem? servers i)) + spanned p servers n (i + 1)

  skipped : (E → Bool) → List S → ℕ → ℕ → ℕ
  skipped p servers zero i = 0
  skipped p servers (suc n) i =
      (if i == c.my_server_idx then 0 else hits p (found_at f (get_elem? servers i)))
      + skipped p servers n (i + 1)

  skipped-spanned :
      (p : E → Bool) (servers : List S) (n i : ℕ)
      → skipped p servers n i
          + (if leb i c.my_server_idx && ltb c.my_server_idx (i + n)
              then hits p (found_at f (get_elem? servers c.my_server_idx))
              else 0)
        ≡ spanned p servers n i
  unfolding skipped spanned
  skipped-spanned p servers zero i = ground arith
  skipped-spanned p servers (suc n) i = ground (arith, skipped-spanned p servers n (i + 1))

  spanned-shift :
      (p : E → Bool) (s : S) (ss : List S) (n i : ℕ)
      → spanned p (s ∷ ss) n (suc i) ≡ spanned p ss n i
  unfolding spanned
  spanned-shift p s ss zero i = refl
  spanned-shift p s ss (suc n) i = ground (arith, spanned-shift p s ss n (i + 1))

  spanned-all :
      (p : E → Bool) (servers : List S)
      → spanned p servers (length servers) 0 ≡ hits p (all_of f servers)
  unfolding spanned all_of filter found_at
  spanned-all p [] = refl
  spanned-all p (s ∷ ss) = omega (
    arith,
    spanned-shift p s ss (length ss) 0,
    spanned-all p ss,
    hits-append p (f s) (all_of f ss),
  )

  others_lem :
      (servers : List S) (n i : ℕ) (final_values : List E)
      → i + n ≤ length servers
      → (out : List E) × (other_servers n i c method rpc servers req final_values
          ≡ some (out, servers))
        × ((p : E → Bool) → hits p out ≡ hits p final_values + skipped p servers n i)
  unfolding other_servers skipped found_at
  others_lem servers zero i final_values le = (final_values, refl, λ p. omega arith)
  others_lem servers (suc n) i final_values le = elim (Bool-cases (i == c.my_server_idx)) [
    | inl mine ↦
        let (out, run, counts) = others_lem servers n (i + 1) final_values (omega arith) in
        (out, rw mine run, λ p. rw mine (omega (arith, counts p)))
    | inr other ↦
        let (s, at) = get_elem?-total servers i (omega arith) in
        let (out, run, counts) = others_lem servers n (i + 1) (final_values ++ f s) (omega arith) in
        (
          out,
          rw (other, deliver_at servers i s at) run,
          λ p. rw (other, at) (omega (arith, counts p, hits-append p final_values (f s))),
        )
  ]

  -- The answer of a client whose own server is one of the servers: each element of each server's answer
  -- once, and no server changes.
  pub gather-all_of :
      (servers : List S)
      → c.num_servers ≡ length servers
      → c.my_server_idx < length servers
      → (out : List E) × (gather c method rpc servers req ≡ some (out, servers))
        × ((p : E → Bool) → hits p out ≡ hits p (all_of f servers))
  unfolding gather in_server found_at
  gather-all_of servers count here =
      let (s, at) = get_elem?-total servers c.my_server_idx here in
      let (out, run, counts) =
        others_lem servers c.num_servers 0 ([] ++ f s) (omega (arith, count)) in
      (
        out,
        elim (Bool-cases (is_local c)) [
          | inl near ↦ rw (near, read_at servers c.my_server_idx s at, run) refl
          | inr far ↦ rw (far, deliver_at servers c.my_server_idx s at, run) refl
        ],
        λ p. omega (
          arith,
          counts p,
          ap (λ n. skipped p servers n 0) count,
          whole p servers s at here,
          spanned-all p servers,
        ),
      )
    where
      whole :
          (p : E → Bool) (servers : List S) (s : S)
          → get_elem? servers c.my_server_idx ≡ some s
          → c.my_server_idx < length servers
          → skipped p servers (length servers) 0 + hits p (f s)
            ≡ spanned p servers (length servers) 0
      whole p servers s at here = ground (arith, skipped-spanned p servers (length servers) 0)
