-- ===== src/BlockMap/Tally.antt =====
-- The counters of the table over its whole life.
use hcl.Base.{
  ℕ, zero, suc, ◌+◌, ◌≡◌, ◌<◌, refl, ap, subst, List, [], ◌∷◌, Option, some, get_elem?, cons-all,
  arith, u64, uint64_max, lt→ltb, ◌>>=◌,
}
use mathlib.Core.Option.{some-injective}
use hcl.HashKey.{HashKey}
use hcl.LockfreeQueue.{LockfreeQueue}
use hcl.MemoryPool.{MemoryPool, new_memory_pool, pooled}
use hcl.MemoryPool.Take.{take_node, memory_pool_pop-take_node}
use hcl.MemoryPool.Count.{new_memory_pool-fields}
use hcl.BlockMap.View.{IsValid}
use hcl.BlockMap.{
  Node, Fnode, BlockMap, count_block_entries, allocated_nodes, removed_nodes, init_table,
  new_block_map,
}
use hcl.BlockMap.Effects.{insert-view, update-field, update_field-view, erase-view}
use hcl.BlockMap.Construct.{new_block_map-view}
use hcl.BlockMap.History.{Change, inserts, updates, erases, change, changes}
use hcl.BlockMap.Counters.{
  stored, Counts, entries-stored, IsCounted, insert-IsCounted, update_field-IsCounted,
  erase-IsCounted,
}

module _ {Q : LockfreeQueue ℕ} {K V : Type 0} ⦃key : HashKey K⦄ where
  IsTallied : Option (BlockMap Q K V) → Type 0
  IsTallied o = (m : BlockMap Q K V) × (o ≡ some m) × IsValid m × IsCounted m

  change-IsTallied :
      (c : Change K V) (m : BlockMap Q K V) → IsValid m → IsCounted m → IsTallied (change c m)
  unfolding change IsTallied
  change-IsTallied (inserts k v) m valid counted =
      let (m', run, valid', _, _) = insert-view valid k v in
      (m', rw run refl, valid', rw run at (insert-IsCounted valid counted k v))
  change-IsTallied (updates k v) m valid counted =
      let (m', run, valid', _, _) = update_field-view valid k (λ _. v) in
      (
        m',
        rw (update-field valid k v, run) refl,
        valid',
        rw run at (update_field-IsCounted valid counted k (λ _. v)),
      )
  change-IsTallied (erases k) m valid counted =
      let (m', run, valid', _, _) = erase-view valid k in
      (m', rw run refl, valid', rw run at (erase-IsCounted valid counted k))

  changes-IsTallied :
      (cs : List (Change K V)) (m : BlockMap Q K V)
      → IsValid m
      → IsCounted m
      → IsTallied (changes cs m)
  unfolding changes IsTallied
  changes-IsTallied [] m valid counted = (m, refl, valid, counted)
  changes-IsTallied (c ∷ cs) m valid counted =
      let (m', run, valid', counted') = change-IsTallied c m valid counted in
      let (last, rest, ok, kept) = changes-IsTallied cs m' valid' counted' in
      (last, rw (run, rest) refl, ok, kept)

  init_table-Counts :
      (n : ℕ) (v0 : V) (max_key : K) (p : MemoryPool Q)
      → 0 < p.chunk_size
      → (t : List (Fnode K V)) × (p' : MemoryPool Q) × (init_table n v0 max_key p ≡ some (t, p'))
        × (stored t ≡ 0)
        × ((i : ℕ) (b : Fnode K V) → get_elem? t i ≡ some b → Counts b)
  unfolding init_table stored Counts u64
  init_table-Counts zero v0 max_key p pos = ([], p, refl, refl, λ i b e. absurd (cc))
  init_table-Counts (suc n) v0 max_key p pos =
      let (p₁, popped, took) = memory_pool_pop-take_node p pos in
      let (t, p₂, run, none_stored, each) =
        init_table-Counts n v0 max_key p₁ (omega (arith, took.size)) in
      let i = (take_node p.chunk_size p.next_node (pooled p)).0 in
      let head : Node K V = record { node_id = i; key = max_key; value = v0 } in
      let b : Fnode K V = record { num_nodes = 0; head = head; nodes = [] } in
      (b ∷ t, p₂, rw (popped, run) refl, omega (arith, none_stored), cons-all Counts b t refl each)

  pub new_block_map-IsCounted :
      (n : ℕ) (p : MemoryPool Q) (v0 : V) (max_key : K) (m : BlockMap Q K V)
      → 0 < n
      → n < uint64_max
      → 0 < p.chunk_size
      → new_block_map n p v0 max_key ≡ some m
      → IsCounted m
  unfolding new_block_map u64
  new_block_map-IsCounted n p v0 max_key m lo hi pos made =
      let (t, p', run, none_stored, each) = init_table-Counts n v0 max_key p pos in
      subst IsCounted (some-injective _ _ (rw (lt→ltb 0 n lo, run, lt→ltb n uint64_max hi) at made))
        (record { each = each; balance = ap (λ s. u64 (s + 0)) none_stored })

  -- A table that the constructor makes on a new pool, after any inserts, updates and erases, all of which
  -- return: count_block_entries answers the number of nodes that stand in the buckets behind their
  -- heads, and what it answers is what allocated_nodes exceeds removed_nodes by, all modulo 2^64.
  pub changes-entries :
      (n size : ℕ) (v0 : V) (max_key : K) (cs : List (Change K V))
      → 0 < n
      → n < uint64_max
      → 0 < size
      → (m : BlockMap Q K V) × ((new_block_map n (new_memory_pool Q size) v0 max_key >>= changes cs)
          ≡ some m)
        × (count_block_entries 0 m.table ≡ u64 (stored m.table))
        × (u64 (count_block_entries 0 m.table + removed_nodes m) ≡ allocated_nodes m)
  unfolding IsTallied u64 allocated_nodes removed_nodes
  changes-entries n size v0 max_key cs lo hi pos =
      let p = new_memory_pool Q size in
      let (chunk, next) = new_memory_pool-fields Q size in
      let (m, made, valid, _, _) = new_block_map-view n p v0 max_key lo hi (rw chunk pos) in
      let (m', run, _, counted) =
        changes-IsTallied cs m valid
          (new_block_map-IsCounted n p v0 max_key m lo hi (rw chunk pos) made) in
      let entries = entries-stored 0 m'.table (omega arith) counted.each in
      (m', rw (made, run) refl, omega (arith, entries), omega (arith, entries, counted.balance))
