-- ===== src/Container/Calls.antt =====
-- A call has the same effect wherever the caller is.
use hcl.Base.{
  ℕ, ◌%◌, ◌≤◌, ◌<◌, ◌≡◌, refl, ◌∙◌, true, List, Option, some, length, get_elem?, get_elem?-lt, inl,
  inr, Bool-cases, Option-cases, arith, ap, mod?-pos, mod_lt, u16_id, set,
}
use hcl.Container.{
  Container, is_local_key, key_server, run_at, Rpc, call, in_server, is_local, routed,
}

is_local_key-eq : (c : Container) (k : ℕ) → is_local_key c k ≡ true → k ≡ c.my_server_idx
unfolding is_local_key
is_local_key-eq c k h = ground arith

module _ {S Req Res : Type 0} where
  run_at_congr :
      (method bound : Req → S → Option (Res × S)) (servers : List S) (i : ℕ) (req : Req)
      → ((s : S) → bound req s ≡ method req s)
      → run_at bound servers i req ≡ run_at method servers i req
  unfolding run_at
  run_at_congr method bound servers i req same = elim (Option-cases (get_elem? servers i)) [
    | inl e ↦ rw e
    | inr (s, e) ↦ rw (e, same s)
  ]

  -- A call that returns has changed the segment of its server and no other.
  pub run_at-set :
      (method : Req → S → Option (Res × S)) (servers : List S) (i : ℕ) (req : Req) (s s' : S)
      (res : Res)
      → get_elem? servers i ≡ some s
      → method req s ≡ some (res, s')
      → run_at method servers i req ≡ some (res, set servers i s')
  unfolding run_at
  run_at-set method servers i req s s' res e h = rw (e, h)

  -- On a method that the server has bound, a call for a server that is there runs the method on the
  -- segment of that server, whether the caller shares its memory or not.
  pub call-run_at :
      (c : Container) (method bound : Req → S → Option (Res × S)) (rpc : Rpc bound)
      (servers : List S) (key_int : ℕ) (req : Req)
      → ((s : S) → bound req s ≡ method req s)
      → key_int < length servers
      → call c method rpc servers key_int req ≡ run_at method servers key_int req
  unfolding call is_local_key run_at
  call-run_at c method bound rpc servers key_int req same h =
      elim (Bool-cases (is_local_key c key_int)) [
        | inl local ↦ rw (local, is_local_key-eq c key_int local)
        | inr remote ↦ rw remote (
            rpc.deliver-run_at servers key_int req h
            ∙ run_at_congr method bound servers key_int req same)
      ]

  -- a call of what the server has bound, where its answer is known
  pub call-set :
      (c : Container) (method : Req → S → Option (Res × S)) (rpc : Rpc method) (servers : List S)
      (i : ℕ) (req : Req) (s s' : S) (res : Res)
      → get_elem? servers i ≡ some s
      → method req s ≡ some (res, s')
      → call c method rpc servers i req ≡ some (res, set servers i s')
  call-set c method rpc servers i req s s' res at h =
      call-run_at c method method rpc servers i req (λ t. refl) (get_elem?-lt servers i s at)
      ∙ run_at-set method servers i req s s' res at h

  pub in_server-set :
      (c : Container) (method : Req → S → Option (Res × S)) (rpc : Rpc method) (servers : List S)
      (req : Req) (s s' : S) (res : Res)
      → get_elem? servers c.my_server_idx ≡ some s
      → method req s ≡ some (res, s')
      → in_server c method rpc servers req ≡ some (res, set servers c.my_server_idx s')
  unfolding in_server
  in_server-set c method rpc servers req s s' res at h =
      let i = c.my_server_idx in
      let there = run_at-set method servers i req s s' res at h in
      elim (Bool-cases (is_local c)) [
        | inl near ↦ rw near there
        | inr far ↦ rw far (rpc.deliver-run_at servers i req (get_elem?-lt servers i s at) ∙ there)
      ]

-- with at most 2^16 servers the server of a key is one of them
pub key_server-lt :
    (c : Container) (key_hash : ℕ)
    → 0 < c.num_servers
    → c.num_servers ≤ 65536
    → (i : ℕ) × (key_server c key_hash ≡ some i)
      × (i < c.num_servers)
      × (i ≡ key_hash % c.num_servers)
unfolding key_server
key_server-lt c key_hash pos small =
    let lt = mod_lt key_hash c.num_servers pos in
    (
      key_hash % c.num_servers,
      rw (mod?-pos key_hash c.num_servers pos, u16_id (key_hash % c.num_servers) (omega arith)),
      lt,
      refl,
    )

module _ {S Req Res : Type 0} where
  -- a call by the hash of a key runs on the server that the remainder names
  pub routed-run_at :
      (c : Container) (method : Req → S → Option (Res × S)) (rpc : Rpc method) (servers : List S)
      (key_hash n : ℕ) (req : Req)
      → c.num_servers ≡ n
      → length servers ≡ n
      → 0 < n
      → n ≤ 65536
      → routed c method rpc servers key_hash req ≡ run_at method servers (key_hash % n) req
  unfolding routed
  routed-run_at c method rpc servers key_hash n req count width pos few =
      let (i, found, lt, e) = key_server-lt c key_hash (rw count pos) (rw count few) in
      let at_home : i ≡ key_hash % n = e ∙ ap (λ n. key_hash % n) count in
      rw (found, at_home)
        (call-run_at c method method rpc servers (key_hash % n) req (λ s. refl)
          (rw width (mod_lt key_hash n pos)))
