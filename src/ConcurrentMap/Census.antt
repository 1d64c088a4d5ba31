-- ===== src/ConcurrentMap/Census.antt =====
-- The counters of one server's map, after all the requests that it serves.
use hcl.Base.{
  ℕ, ◌+◌, ◌≡◌, ◌≤◌, ◌<◌, refl, ◌∙◌, true, List, [], ◌∷◌, Option, some, arith, u64, uint64_max,
  ◌>>=◌,
}
use hcl.HashKey.{HashKey}
use hcl.LockfreeQueue.{LockfreeQueue}
use hcl.MemoryPool.{new_memory_pool}
use hcl.MemoryPool.Count.{new_memory_pool-fields}
use hcl.Partition.Setup.{initialize_tables-total}
use hcl.BlockMap.{BlockMap, count_block_entries, allocated_nodes, removed_nodes}
use hcl.BlockMap.View.{IsValid}
use hcl.BlockMap.Effects.{
  find-view, get_total, insert-view, erase-view, update-field, update_field-view,
}
use hcl.BlockMap.Construct.{new_block_map-view}
use hcl.BlockMap.Counters.{
  stored, IsCounted, entries-stored, insert-IsCounted, update_field-IsCounted, erase-IsCounted,
}
use hcl.BlockMap.Tally.{new_block_map-IsCounted}
use hcl.ConcurrentMap.{
  ConcurrentMap, Request, insert_req, find_req, erase_req, get_req, update_req, serve, initialize,
  table_of, table_data, allocated, removed,
}

module _ {Q : LockfreeQueue ℕ} {K V : Type 0} ⦃key : HashKey K⦄ where
  -- a server serves requests, one after the other
  unfoldable pub serve_all :
      V → List (Request K V) → ConcurrentMap Q K V → Option (ConcurrentMap Q K V)
  serve_all v0 [] s = some s
  serve_all v0 (req ∷ reqs) s = serve v0 req s >>= λ (_, s'). serve_all v0 reqs s'

  record IsCensused (s : ConcurrentMap Q K V) : Type 0 where
    pub table : BlockMap Q K V
    pub there : s.my_table ≡ some table
    pub valid : IsValid table
    pub counted : IsCounted table

  serve-IsCensused :
      (v0 : V) (req : Request K V) (s : ConcurrentMap Q K V) (reqs : List (Request K V))
      → IsCensused s
      → (s' : ConcurrentMap Q K V) × IsCensused s'
        × (serve_all v0 (req ∷ reqs) s ≡ serve_all v0 reqs s')
  unfolding serve_all serve
  serve-IsCensused v0 (insert_req k v) s reqs h =
      let (t, run, valid, _, _) = insert-view h.valid k v in
      (
        record s { my_table = some t },
        record {
          table = t;
          there = refl;
          valid = valid;
          counted = rw run at (insert-IsCounted h.valid h.counted k v);
        },
        rw (h.there, run) refl,
      )
  serve-IsCensused v0 (find_req k) s reqs h =
      let (p, run, _) = find-view h.valid k in (s, h, rw (h.there, run) refl)
  serve-IsCensused v0 (erase_req k) s reqs h =
      let (t, run, valid, _, _) = erase-view h.valid k in
      (
        record s { my_table = some t },
        record {
          table = t;
          there = refl;
          valid = valid;
          counted = rw run at (erase-IsCounted h.valid h.counted k);
        },
        rw (h.there, run) refl,
      )
  serve-IsCensused v0 (get_req k) s reqs h =
      let (r, run) = get_total h.valid k v0 in (s, h, rw (h.there, run) refl)
  serve-IsCensused v0 (update_req k v) s reqs h =
      let (t, run, valid, _, _) = update_field-view h.valid k (λ _. v) in
      (
        record s { my_table = some t },
        record {
          table = t;
          there = refl;
          valid = valid;
          counted = rw run at (update_field-IsCounted h.valid h.counted k (λ _. v));
        },
        rw (h.there, update-field h.valid k v, run) refl,
      )

  serve_all-IsCensused :
      (v0 : V) (reqs : List (Request K V)) (s : ConcurrentMap Q K V)
      → IsCensused s
      → (s' : ConcurrentMap Q K V) × IsCensused s' × (serve_all v0 reqs s ≡ some s')
  unfolding serve_all
  serve_all-IsCensused v0 [] s h = (s, h, refl)
  serve_all-IsCensused v0 (req ∷ reqs) s h =
      let (s', h', run) = serve-IsCensused v0 req s reqs h in
      let (last, ok, rest) = serve_all-IsCensused v0 reqs s' h' in (last, ok, run ∙ rest)

  initialize-IsCensused :
      (n np rank : ℕ) (v0 : V) (max_key : K)
      → 0 < np
      → np ≤ n
      → n < uint64_max
      → rank < np
      → (s : ConcurrentMap Q K V) × IsCensused s × (initialize true n np rank v0 max_key ≡ some s)
  unfolding initialize table_of
  initialize-IsCensused n np rank v0 max_key pos le hi lt =
      let (r, cut, size_pos, size_max) = initialize_tables-total n np rank pos le hi lt in
      let p = new_memory_pool Q 100 in
      let chunks : 0 < p.chunk_size = rw (new_memory_pool-fields Q 100).0 (omega arith) in
      let (t, run, valid, _, _) =
        new_block_map-view r.max_size p v0 max_key size_pos size_max chunks in
      (
        record { is_server = true; range = r; my_table = some t },
        record {
          table = t;
          there = refl;
          valid = valid;
          counted = new_block_map-IsCounted r.max_size p v0 max_key t size_pos size_max chunks run;
        },
        rw (cut, run) refl,
      )

  -- One of np servers makes its part of a table of n slots, at least one for each server and fewer
  -- than UINT64_MAX, and serves any requests, also for its largest key: everything returns; data()
  -- is then its table, whose count of entries is the number of nodes that stand in the buckets
  -- behind their heads, and allocated() is removed() and this number, all modulo 2^64.
  pub serve_all-allocated :
      (n np rank : ℕ) (v0 : V) (max_key : K) (reqs : List (Request K V))
      → 0 < np
      → np ≤ n
      → n < uint64_max
      → rank < np
      → (s : ConcurrentMap Q K V) × (t : BlockMap Q K V) × (a r : ℕ) × ((initialize true n np rank
              v0 max_key
            >>= serve_all v0 reqs)
          ≡ some s)
        × (table_data s ≡ some t)
        × (count_block_entries 0 t.table ≡ u64 (stored t.table))
        × (allocated s ≡ some a)
        × (removed s ≡ some r)
        × (u64 (count_block_entries 0 t.table + r) ≡ a)
  unfolding table_data allocated removed allocated_nodes removed_nodes u64
  serve_all-allocated n np rank v0 max_key reqs pos le hi lt =
      let (s, h, up) = initialize-IsCensused n np rank v0 max_key pos le hi lt in
      let (s', h', run) = serve_all-IsCensused v0 reqs s h in
      let entries = entries-stored 0 h'.table.table (omega arith) h'.counted.each in
      (
        s',
        h'.table,
        h'.table.allocated,
        h'.table.removed,
        rw (up, run) refl,
        h'.there,
        omega (arith, entries),
        rw h'.there refl,
        rw h'.there refl,
        omega (arith, entries, h'.counted.balance),
      )
