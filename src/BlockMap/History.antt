-- ===== src/BlockMap/History.antt =====
-- A table over its whole life: the constructor on a new pool, and then any inserts, updates and erases.
use mathlib.Core.Option.{some-injective}
use hcl.Base.{
  ap, subst, ℕ, zero, suc, ◌+◌, ◌≡◌, ◌<◌, refl, List, [], ◌∷◌, Option, some, ltb, to_nat, count,
  arith, uint64_max, ◌>>=◌, lt→ltb,
}
use hcl.HashKey.{HashKey}
use hcl.LockfreeQueue.{LockfreeQueue}
use hcl.MemoryPool.{MemoryPool, pooled, new_memory_pool}
use hcl.MemoryPool.Take.{take_node, memory_pool_pop-take_node}
use hcl.MemoryPool.Count.{count-take_node, count-new_memory_pool, new_memory_pool-fields}
use hcl.BlockMap.{Node, Fnode, BlockMap, insert, update, erase, init_table, new_block_map}
use hcl.BlockMap.View.{IsValid}
use hcl.BlockMap.Effects.{insert-view, update-field, update_field-view, erase-view}
use hcl.BlockMap.Construct.{new_block_map-view}
use hcl.BlockMap.Nodes.{
  count-placed-empty, count-placed-nil, placed, IsConserved, insert-IsConserved,
  update_field-IsConserved, erase-IsConserved,
}

pub data Change (K V : Type 0) : Type 0 where
  inserts : K → V → Change K V
  updates : K → V → Change K V
  erases : K → Change K V

module _ {Q : LockfreeQueue ℕ} {K V : Type 0} ⦃key : HashKey K⦄ where
  unfoldable pub change : Change K V → BlockMap Q K V → Option (BlockMap Q K V)
  change (inserts k v) m = insert m k v >>= λ (_, m'). some m'
  change (updates k v) m = update m k v >>= λ (_, m'). some m'
  change (erases k) m = erase m k >>= λ (_, m'). some m'

  unfoldable pub changes : List (Change K V) → BlockMap Q K V → Option (BlockMap Q K V)
  changes [] m = some m
  changes (c ∷ cs) m = change c m >>= changes cs

  IsWhole : BlockMap Q K V → Option (BlockMap Q K V) → Type 0
  IsWhole m o = (m' : BlockMap Q K V) × (o ≡ some m') × IsValid m' × IsConserved m'

  change-IsWhole :
      (c : Change K V) (m : BlockMap Q K V) → IsValid m → IsConserved m → IsWhole m (change c m)
  unfolding change IsWhole
  change-IsWhole (inserts k v) m valid whole =
      let (m', run, valid', _, _) = insert-view valid k v in
      (m', rw run refl, valid', rw run at (insert-IsConserved valid whole k v))
  change-IsWhole (updates k v) m valid whole =
      let (m', run, valid', _, _) = update_field-view valid k (λ _. v) in
      (
        m',
        rw (update-field valid k v, run) refl,
        valid',
        rw run at (update_field-IsConserved valid whole k (λ _. v)),
      )
  change-IsWhole (erases k) m valid whole =
      let (m', run, valid', _, _) = erase-view valid k in
      (m', rw run refl, valid', rw run at (erase-IsConserved valid whole k))

  changes-IsWhole :
      (cs : List (Change K V)) (m : BlockMap Q K V)
      → IsValid m
      → IsConserved m
      → IsWhole m (changes cs m)
  unfolding changes IsWhole
  changes-IsWhole [] m valid whole = (m, refl, valid, whole)
  changes-IsWhole (c ∷ cs) m valid whole =
      let (m', run, valid', whole') = change-IsWhole c m valid whole in
      let (last, rest, ok, kept) = changes-IsWhole cs m' valid' whole' in
      (last, rw (run, rest) refl, ok, kept)

  -- the heads of the buckets come out of the pool
  init_table-count :
      (n : ℕ) (v0 : V) (max_key : K) (p : MemoryPool Q)
      → 0 < p.chunk_size
      → (t : List (Fnode K V)) × (p' : MemoryPool Q) × (init_table n v0 max_key p ≡ some (t, p'))
        × ((a : ℕ)
            → count a (pooled p') + count a (placed t) + to_nat (ltb a p.next_node)
              ≡ count a (pooled p) + to_nat (ltb a p'.next_node))
  unfolding init_table
  init_table-count zero v0 max_key p pos =
      ([], p, refl, λ a. rw (count-placed-nil {K = K} {V = V} a [] refl) (omega arith))
  init_table-count (suc n) v0 max_key p pos =
      let (p₁, popped, took) = memory_pool_pop-take_node p pos in
      let (t, p₂, run, counts) = init_table-count n v0 max_key p₁ (omega (arith, took.size)) in
      let i = (take_node p.chunk_size p.next_node (pooled p)).0 in
      let head : Node K V = record { node_id = i; key = max_key; value = v0 } in
      (
        record { num_nodes = 0; head = head; nodes = [] } ∷ t,
        p₂,
        rw (popped, run) refl,
        λ a. omega (
          arith,
          count-placed-empty a i max_key v0 t,
          counts a,
          ap (count a) took.waiting,
          ap (λ x. to_nat (ltb a x)) took.next,
          count-take_node a p.chunk_size p.next_node (pooled p) pos,
        ),
      )

  new_block_map-IsConserved :
      (n : ℕ) (p : MemoryPool Q) (v0 : V) (max_key : K) (m : BlockMap Q K V)
      → 0 < n
      → n < uint64_max
      → 0 < p.chunk_size
      → ((a : ℕ) → count a (pooled p) ≡ to_nat (ltb a p.next_node))
      → new_block_map n p v0 max_key ≡ some m
      → IsConserved m
  unfolding new_block_map
  new_block_map-IsConserved n p v0 max_key m lo hi pos once made =
      let (t, p', run, counts) = init_table-count n v0 max_key p pos in
      subst IsConserved
        (some-injective _ _ (rw (lt→ltb 0 n lo, run, lt→ltb n uint64_max hi) at made))
        (record { once = λ a. omega (arith, counts a, once a) })

  -- A table that the constructor makes, of one slot or more and fewer than UINT64_MAX, on a new
  -- pool whose chunks are not empty, after any inserts, updates and erases, all of which return:
  -- each of the nodes that malloc has handed out stands in exactly one place, once in the pool or
  -- once in a bucket, and no other node stands anywhere.
  pub changes-once :
      (n size : ℕ) (v0 : V) (max_key : K) (cs : List (Change K V))
      → 0 < n
      → n < uint64_max
      → 0 < size
      → (m : BlockMap Q K V) × ((new_block_map n (new_memory_pool Q size) v0 max_key >>= changes cs)
          ≡ some m)
        × ((a : ℕ)
            → count a (pooled m.pl) + count a (placed m.table) ≡ to_nat (ltb a m.pl.next_node))
  unfolding IsWhole
  changes-once n size v0 max_key cs lo hi pos =
      let p = new_memory_pool Q size in
      let (chunk, next) = new_memory_pool-fields Q size in
      let (m, made, valid, _, _) = new_block_map-view n p v0 max_key lo hi (rw chunk pos) in
      let (m', run, _, whole) = changes-IsWhole cs m valid (
        new_block_map-IsConserved n p v0 max_key m lo hi (rw chunk pos)
          (λ a. rw next (count-new_memory_pool Q size a)) made) in
      (m', rw (made, run) refl, whole.once)
