-- ===== src/ConcurrentMap/Start.antt =====
-- The servers as they come up: initialize_tables and the constructor of the table, on each of them.
use mathlib.Core.Option.{some-injective}
use hcl.Base.{
  subst, ℕ, zero, suc, ◌+◌, true, Option, some, none, List, [], ◌∷◌, ◌≡◌, ◌≤◌, ◌<◌, refl, arith,
  length, get_elem?, ◌>>=◌, uint64_max,
}
use hcl.BlockMap.Construct.{new_block_map-view}
use hcl.ConcurrentMap.{ConcurrentMap, Request, serve, initialize, table_of}
use hcl.ConcurrentMap.Promise.{Holds}
use hcl.ConcurrentMap.Cluster.{answers, Unreserved, remote_all, remote_all-answers}
use hcl.Container.{Rpc}
use hcl.HashKey.{HashKey}
use hcl.LockfreeQueue.{LockfreeQueue}
use hcl.MemoryPool.{new_memory_pool}
use hcl.MemoryPool.Count.{new_memory_pool-fields}
use hcl.Partition.Setup.{initialize_tables-total}

module _ {Q : LockfreeQueue ℕ} {K V : Type 0} ⦃key : HashKey K⦄ where
  initialize-Holds :
      (n np rank : ℕ) (v0 : V) (max_key : K)
      → 0 < np
      → np ≤ n
      → n < uint64_max
      → rank < np
      → (s : ConcurrentMap Q K V) × (initialize true n np rank v0 max_key ≡ some s)
        × Holds max_key s (λ _. none)
  unfolding initialize table_of
  initialize-Holds n np rank v0 max_key pos le hi lt =
      let (r, cut, size_pos, size_max) = initialize_tables-total n np rank pos le hi lt in
      let (t, run, valid, reads, empty) =
        new_block_map-view r.max_size (new_memory_pool Q 100) v0 max_key size_pos size_max
          (rw (new_memory_pool-fields Q 100).0 (omega arith)) in
      (
        record { is_server = true; range = r; my_table = some t },
        rw (cut, run) refl,
        record { table = t; there = refl; valid = valid; empty = empty; reads = reads },
      )

  -- the processes that are servers, from rank `rank` on
  unfoldable pub start : ℕ → ℕ → ℕ → ℕ → V → K → Option (List (ConcurrentMap Q K V))
  start zero rank n np v0 max_key = some []
  start (suc m) rank n np v0 max_key = do
    s ← initialize true n np rank v0 max_key
    rest ← start m (rank + 1) n np v0 max_key
    some (s ∷ rest)

  record Started (m : ℕ) (max_key : K) (servers : List (ConcurrentMap Q K V)) : Type 0 where
    pub width : length servers ≡ m
    pub holds :
        (i : ℕ) (s : ConcurrentMap Q K V)
        → get_elem? servers i ≡ some s
        → Holds max_key s (λ _. none)

  start-Started :
      (m rank n np : ℕ) (v0 : V) (max_key : K)
      → 0 < np
      → np ≤ n
      → n < uint64_max
      → rank + m ≤ np
      → (servers : List (ConcurrentMap Q K V)) × (start m rank n np v0 max_key ≡ some servers)
        × Started m max_key servers
  unfolding start
  start-Started zero rank n np v0 max_key pos le hi room =
      ([], refl, record { width = refl; holds = λ i s e. absurd cc })
  start-Started (suc m) rank n np v0 max_key pos le hi room =
      let (s, up, holds) = initialize-Holds n np rank v0 max_key pos le hi (omega arith) in
      let (rest, run, more) = start-Started m (rank + 1) n np v0 max_key pos le hi (omega arith) in
      (
        s ∷ rest,
        rw (up, run) refl,
        record { width = rw more.width refl; holds = first_holds s rest holds more },
      )
    where
      first_holds :
          (s : ConcurrentMap Q K V) (rest : List (ConcurrentMap Q K V))
          → Holds max_key s (λ _. none)
          → Started m max_key rest
          → (i : ℕ) (t : ConcurrentMap Q K V) → get_elem? (s ∷ rest) i ≡ some t
          → Holds max_key t (λ _. none)
      first_holds s rest h more zero t e =
          subst (λ u. Holds max_key u (λ _. none)) (some-injective _ _ e) h
      first_holds s rest h more (suc i) t e = more.holds i t e

  -- np servers come up together, one or more and at most 65536, on a table of n slots, at least one
  -- for each server and fewer than UINT64_MAX; then any series of calls with no use of the largest
  -- key, which is reserved, through a network that runs what the servers have bound, returns with
  -- the answers of one map that was empty at first, whichever server each key lives on, but for
  -- one: a Get of a key that hashes below the largest key answers ValueT(), whether or not the map
  -- has the key.
  pub start-answers :
      (n np : ℕ) (v0 : V) (max_key : K) (rpc : Rpc {S = ConcurrentMap Q K V} (serve v0))
      (reqs : List (Request K V))
      → 0 < np
      → np ≤ 65536
      → np ≤ n
      → n < uint64_max
      → Unreserved max_key reqs
      → (start np 0 n np v0 max_key >>= λ servers. remote_all v0 np n rpc servers reqs)
        ≡ some (answers v0 max_key reqs (λ _. none))
  start-answers n np v0 max_key rpc reqs pos few le hi free =
      let (servers, run, up) = start-Started np 0 n np v0 max_key pos le hi (omega arith) in
      rw
        (
          run,
          remote_all-answers v0 max_key np n servers (λ _. none) rpc reqs up.width
              (record {
                some_servers = rw up.width pos;
                few_servers = rw up.width few;
                total_pos = omega arith;
                total_max = hi;
                local = λ i k. none;
                holds = up.holds;
                agrees = λ k. refl;
              })
              free,
        )
        refl
