-- ===== src/ConcurrentMap/Cluster.antt =====
-- The tables of all servers together: one map, whichever server each key lives on.
use hcl.Base.{
  subst, ==_iff, ℕ, false, Option, some, List, [], ◌∷◌, ◌≡◌, ◌≤◌, ◌<◌, refl, sym, ◌∙◌, inl, inr, ap,
  arith, length, get_elem?, set, length-set, get_elem?-total, get_elem?-set, u16_id, ◌==◌,
  Bool-cases, if◌then◌else◌, ◌>>=◌, uint64_max,
}
use hcl.Container.{Rpc}
use hcl.Container.Calls.{run_at-set}
use hcl.ConcurrentMap.{
  ConcurrentMap, Request, insert_req, find_req, erase_req, get_req, update_req, Response, key_of,
  serve, remote,
}
use hcl.ConcurrentMap.Promise.{Serves, answer, promised, overwritten, Holds, serve-Serves}
use hcl.HashKey.{HashKey, ◌≈◌, ≈-hash}
use hcl.LockfreeQueue.{LockfreeQueue}
use hcl.Partition.Owner.{owner, owner-small, server_location-owner}

module _ {K V : Type 0} ⦃key : HashKey K⦄ where
  promised_other :
      (req : Request K V) (f : K → Option V) (q : K)
      → (key_of req ≈ q) ≡ false
      → promised req f q ≡ f q
  unfolding promised overwritten
  promised_other (insert_req k v) f q e = ground arith
  promised_other (find_req k) f q e = refl
  promised_other (erase_req k) f q e = ground arith
  promised_other (get_req k) f q e = refl
  promised_other (update_req k v) f q e = ground arith

  promised_congr :
      (req : Request K V) (f g : K → Option V) (q : K)
      → f (key_of req) ≡ g (key_of req)
      → f q ≡ g q
      → promised req f q ≡ promised req g q
  unfolding promised
  promised_congr (insert_req k v) f g q a b = rw (a, b) refl
  promised_congr (find_req k) f g q a b = b
  promised_congr (erase_req k) f g q a b = rw b refl
  promised_congr (get_req k) f g q a b = b
  promised_congr (update_req k v) f g q a b = rw b refl

  answer_congr :
      (v0 : V) (max_key : K) (req : Request K V) (f g : K → Option V)
      → f (key_of req) ≡ g (key_of req)
      → answer v0 max_key req f ≡ answer v0 max_key req g
  unfolding answer
  answer_congr v0 max_key (insert_req k v) f g a = refl
  answer_congr v0 max_key (find_req k) f g a = rw a refl
  answer_congr v0 max_key (erase_req k) f g a = rw a refl
  answer_congr v0 max_key (get_req k) f g a = rw a refl
  answer_congr v0 max_key (update_req k v) f g a = rw a refl

module _ {Q : LockfreeQueue ℕ} {K V : Type 0} ⦃key : HashKey K⦄ where
  -- the servers of one map f over a table of `total` slots: each one holds a table, and the table of
  -- the server that owns a key agrees with f there
  pub record IsCluster (max_key : K) (total : ℕ) (servers : List (ConcurrentMap Q K V))
      (f : K → Option V) : Type 0 where
    pub some_servers : 0 < length servers
    pub few_servers : length servers ≤ 65536
    pub total_pos : 0 < total
    pub total_max : total < uint64_max
    pub local : ℕ → K → Option V
    pub holds :
        (i : ℕ) (s : ConcurrentMap Q K V) → get_elem? servers i ≡ some s → Holds max_key s (local i)
    pub agrees : (k : K) → local (owner total (length servers) (key.hash k)) k ≡ f k

  module _ {max_key : K} {total : ℕ} {servers : List (ConcurrentMap Q K V)} {f : K → Option V}
      (c : IsCluster max_key total servers f) where
    abbrev home_of : K → ℕ
    home_of k = owner total (length servers) (key.hash k)

    home_of-lt : (k : K) → home_of k < length servers
    home_of-lt k = owner-small total (length servers) (key.hash k) c.total_pos c.some_servers

    -- the new local maps: the one at the request's server has changed
    relocal : Request K V → ℕ → K → Option V
    relocal req i = if i == home_of (key_of req) then promised req (c.local i) else c.local i

    relocal-agrees : (req : Request K V) (q : K) → relocal req (home_of q) q ≡ promised req f q
    unfolding relocal
    relocal-agrees req q = elim (Bool-cases (home_of q == home_of (key_of req))) [
      | inl same ↦ rw same (
          promised_congr req (c.local (home_of q)) f q
            (ap (λ i. c.local i (key_of req)) ((==_iff _ _).0 same) ∙ c.agrees (key_of req))
            (c.agrees q))
      | inr other ↦ rw (other, promised_other req f q (apart req q other)) (c.agrees q)
    ]
      where
        apart :
            (req : Request K V) (q : K)
            → (home_of q == home_of (key_of req)) ≡ false
            → (key_of req ≈ q) ≡ false
        apart req q other = ground (arith, ≈-hash (key_of req) q)

    reholds :
        (req : Request K V) (s' : ConcurrentMap Q K V)
        → home_of (key_of req) < length servers
        → Holds max_key s' (promised req (c.local (home_of (key_of req))))
        → (i : ℕ) (t : ConcurrentMap Q K V)
        → get_elem? (set servers (home_of (key_of req)) s') i ≡ some t
        → Holds max_key t (relocal req i)
    unfolding relocal
    reholds req s' lt h i t e =
        let read = sym (get_elem?-set servers (home_of (key_of req)) i s' lt) ∙ e in
        elim (Bool-cases (i == home_of (key_of req))) [
          | inl here ↦
              rw (here, (==_iff i (home_of (key_of req))).0 here)
                (subst (λ u. Holds max_key u (promised req (c.local (home_of (key_of req)))))
                  (some-inj (rw here at read)) h)
          | inr away ↦ rw away (c.holds i t (rw away at read))
        ]
      where
        some-inj : {a b : ConcurrentMap Q K V} → some a ≡ some b → a ≡ b
        some-inj e = cc

    -- a client's call
    pub remote-promised :
        (v0 : V) (rpc : Rpc {S = ConcurrentMap Q K V} (serve v0)) (req : Request K V)
        → (max_key ≈ key_of req) ≡ false
        → (servers' : List (ConcurrentMap Q K V)) × (remote v0
              (length servers)
              total
              rpc
              servers
              req
            ≡ some (answer v0 max_key req f, servers'))
          × (length servers' ≡ length servers)
          × IsCluster max_key total servers' (promised req f)
    unfolding remote Serves
    remote-promised v0 rpc req other =
        let i = home_of (key_of req) in
        let lt = home_of-lt (key_of req) in
        let (s, at) = get_elem?-total servers i lt in
        let (s', run, holds) = serve-Serves v0 max_key req s (c.local i) (c.holds i s at) other in
        let width = length-set servers i s' in
        (
          set servers i s',
          rw
              (
                server_location-owner total (length servers) (key.hash (key_of req)) c.total_pos
                    c.total_max c.some_servers,
                u16_id i (omega (arith, lt, c.few_servers)),
                rpc.deliver-run_at servers i req lt,
                run_at-set (serve v0) servers i req s s' _ at run,
              )
              (ap (λ a. some (a, set servers i s'))
                (answer_congr v0 max_key req (c.local i) f (c.agrees (key_of req)))),
          width,
          record {
            some_servers = rw width c.some_servers;
            few_servers = rw width c.few_servers;
            total_pos = c.total_pos;
            total_max = c.total_max;
            local = relocal req;
            holds = reholds req s' lt holds;
            agrees = λ q. rw width (relocal-agrees req q);
          },
        )

module _ {K V : Type 0} ⦃key : HashKey K⦄ where
  -- the answers of one map to a series of calls, but for a Get of a key that hashes below the largest one,
  -- which is answered by ValueT()
  unfoldable pub answers : V → K → List (Request K V) → (K → Option V) → List (Response V)
  answers v0 max_key [] f = []
  answers v0 max_key (req ∷ reqs) f =
      answer v0 max_key req f ∷ answers v0 max_key reqs (promised req f)

  -- calls that leave the reserved key alone
  unfoldable pub Unreserved : K → List (Request K V) → Type 0
  Unreserved max_key [] = Unit {0}
  Unreserved max_key (req ∷ reqs) = ((max_key ≈ key_of req) ≡ false) × Unreserved max_key reqs

module _ {Q : LockfreeQueue ℕ} {K V : Type 0} ⦃key : HashKey K⦄ where
  -- a series of calls, by clients anywhere, in the order in which they take effect
  unfoldable pub remote_all :
      (v0 : V)
      → ℕ
      → ℕ
      → Rpc {S = ConcurrentMap Q K V} (serve v0)
      → List (ConcurrentMap Q K V)
      → List (Request K V)
      → Option (List (Response V))
  remote_all v0 np total rpc servers [] = some []
  remote_all v0 np total rpc servers (req ∷ reqs) = do
    (res, servers') ← remote v0 np total rpc servers req
    rest ← remote_all v0 np total rpc servers' reqs
    some (res ∷ rest)

  -- On servers that hold one map between them, a series of calls with no use of the reserved key
  -- returns, with the answers of that one map, whichever server each key lives on.
  pub remote_all-answers :
      (v0 : V) (max_key : K) (num_servers total : ℕ) (servers : List (ConcurrentMap Q K V))
      (f : K → Option V) (rpc : Rpc {S = ConcurrentMap Q K V} (serve v0))
      (reqs : List (Request K V))
      → length servers ≡ num_servers
      → IsCluster max_key total servers f
      → Unreserved max_key reqs
      → remote_all v0 num_servers total rpc servers reqs ≡ some (answers v0 max_key reqs f)
  unfolding remote_all answers Unreserved
  remote_all-answers v0 max_key np total servers f rpc [] e c h = refl
  remote_all-answers v0 max_key np total servers f rpc (req ∷ reqs) e c (other, h) =
      let (servers', run, width, c') = remote-promised c v0 rpc req other in
      rw
        (
          rw e at run,
          remote_all-answers v0 max_key np total servers' (promised req f) rpc reqs (width ∙ e) c'
              h,
        )
        refl
