-- ===== src/Container/Routed.antt =====
-- A container that sends each key to the server that its hash names: all the segments together answer
-- like one.
use hcl.Base.{
  ◌%◌, ◌≡◌, ◌≤◌, ◌<◌, refl, sym, ◌∙◌, ap, false, List, Option, some, none, length, get_elem?, set,
  length-set, get_elem?-total, get_elem?-set, if◌then◌else◌, ◌==◌, ==_iff, Bool-cases, inl, inr,
  arith, mod_lt,
}
use hcl.Container.{Container, Rpc, routed}
use hcl.Container.Calls.{call-run_at, run_at-set, key_server-lt}
use hcl.HashKey.{HashKey, ◌≈◌, ≈-hash}

module _ {S K A : Type 0} ⦃key : HashKey K⦄ (absent : A) (local : S → K → A) where
  unfoldable pub at_server : Option S → K → A
  at_server none q = absent
  at_server (some s) q = local s q

  -- what the server of a key holds for it
  unfoldable pub global : List S → K → A
  unfolding at_server
  global servers q = at_server (get_elem? servers (key.hash q % length servers)) q

  -- a request about the key `k` as one segment serves it: the answer, and the change at that key
  abbrev pub ServesAt :
      {Req Res : Type 0} → (Req → S → Option (Res × S)) → Req → K → (A → Res) → (A → A) → Type 0
  ServesAt method req k res x =
      (s : S)
      → (s' : S) × (method req s ≡ some (res (local s k), s'))
        × ((q : K) → local s' q ≡ (if k ≈ q then x (local s k) else local s q))

  module _ {Req Res : Type 0} (method : Req → S → Option (Res × S)) (req : Req) (k : K)
      (res : A → Res) (x : A → A) where
    changed_at :
        (servers : List S) (s s' : S) (q : K)
        → get_elem? servers (key.hash k % length servers) ≡ some s
        → key.hash k % length servers < length servers
        → ((p : K) → local s' p ≡ (if k ≈ p then x (local s k) else local s p))
        → global (set servers (key.hash k % length servers) s') q
          ≡ (if k ≈ q then x (global servers k) else global servers q)
    unfolding global at_server
    changed_at servers s s' q at lt e =
        let i = key.hash k % length servers in
        let j = key.hash q % length servers in
        let read = get_elem?-set servers i j s' lt in
        rw (length-set servers i s', read)
          (elim (Bool-cases (j == i)) [
            | inl same ↦ rw (same, (==_iff j i).0 same, at, e q) refl
            | inr other ↦ rw (other, apart servers q other) refl
          ])
      where
        apart :
            (servers : List S) (q : K)
            → (key.hash q % length servers == key.hash k % length servers) ≡ false
            → (k ≈ q) ≡ false
        apart servers q other = ground (arith, ≈-hash k q)

    -- a client's call
    pub routed-global :
        (c : Container) (rpc : Rpc method) (servers : List S)
        → c.num_servers ≡ length servers
        → 0 < length servers
        → length servers ≤ 65536
        → ServesAt method req k res x
        → (servers' : List S) × (routed c method rpc servers (key.hash k) req
            ≡ some (res (global servers k), servers'))
          × (length servers' ≡ length servers)
          × ((q : K)
              → global servers' q ≡ (if k ≈ q then x (global servers k) else global servers q))
    unfolding routed global at_server
    routed-global c rpc servers count pos few serves =
        let (i, found, lt, e) = key_server-lt c (key.hash k) (rw count pos) (rw count few) in
        let h = key.hash k % length servers in
        let at_home : i ≡ h = e ∙ ap (λ n. key.hash k % n) count in
        let below : h < length servers = mod_lt (key.hash k) (length servers) pos in
        let (s, at) = get_elem?-total servers h below in
        let (s', run, effect) = serves s in
        (
          set servers h s',
          rw
              (
                found,
                at_home,
                call-run_at c method method rpc servers h req (λ t. refl) below,
                run_at-set method servers h req s s' _ at run,
              )
              (ap (λ a. some (res a, set servers h s')) (sym (held servers s at))),
          length-set servers h s',
          λ q. changed_at servers s s' q at below effect,
        )
      where
        held :
            (servers : List S) (s : S)
            → get_elem? servers (key.hash k % length servers) ≡ some s
            → global servers k ≡ local s k
        held servers s at = rw at refl
