-- ===== src/BlockMap/Counters.antt =====
-- The counters of the table: num_nodes of each bucket, allocated and removed, against the nodes that the
-- buckets hold.
use hcl.Base.{
  ℕ, zero, suc, ◌+◌, ◌≡◌, ◌<◌, refl, sym, ◌∙◌, ap, Bool, true, false, List, [], ◌∷◌, ◌++◌, some,
  get_elem?, set, set-all, length, length-append, arith, u64, uint64_max, Bool-cases, inl, inr,
}
use mathlib.Core.Option.{some-injective}
use hcl.HashKey.{HashKey, ◌≈◌}
use hcl.LockfreeQueue.{LockfreeQueue}
use hcl.MemoryPool.{pooled}
use hcl.MemoryPool.Take.{take_node, memory_pool_pop-take_node}
use hcl.BlockMap.View.{IsValid, home, locate-home}
use hcl.BlockMap.{
  Node, Fnode, BlockMap, insert, erase, update_field, link, unlink, update_walk,
  count_block_entries,
}
use hcl.BlockMap.Relink.{insert_walk-append, erase_walk-append}
use hcl.BlockMap.Nodes.{after}

module _ {K V : Type 0} where
  -- how many nodes stand in the buckets behind their heads
  unfoldable pub stored : List (Fnode K V) → ℕ
  stored [] = 0
  stored (b ∷ bs) = length b.nodes + stored bs

  unfoldable pub Counts : Fnode K V → Type 0
  Counts b = b.num_nodes ≡ u64 (length b.nodes)

  stored-set :
      (t : List (Fnode K V)) (i : ℕ) (b b' : Fnode K V)
      → get_elem? t i ≡ some b
      → stored (set t i b') + length b.nodes ≡ stored t + length b'.nodes
  unfolding stored
  stored-set [] i b b' e = absurd (cc)
  stored-set (x ∷ xs) zero b b' e =
      omega (arith, ap (λ (c : Fnode K V). length c.nodes) (some-injective x b e))
  stored-set (x ∷ xs) (suc i) b b' e = omega (arith, stored-set xs i b b' e)

  pub entries-stored :
      (n : ℕ) (t : List (Fnode K V))
      → n < 18446744073709551616
      → ((i : ℕ) (b : Fnode K V) → get_elem? t i ≡ some b → Counts b)
      → count_block_entries n t ≡ u64 (n + stored t)
  unfolding count_block_entries stored u64 Counts
  entries-stored n [] lt each = omega arith
  entries-stored n (b ∷ bs) lt each = omega (
    arith,
    each 0 b refl,
    entries-stored (u64 (n + b.num_nodes)) bs (omega arith) (λ i c at. each (suc i) c at),
  )

  length-update_walk :
      ⦃key : HashKey K⦄ (k : K) (fn : V → V) (found : Bool) (ns : List (Node K V))
      → length (update_walk k fn found ns).1 ≡ length ns
  unfolding update_walk
  length-update_walk k fn found [] = refl
  length-update_walk k fn found (n ∷ ns) =
      ground (arith, length-update_walk k fn found ns, length-update_walk k fn true ns)

module _ {Q : LockfreeQueue ℕ} {K V : Type 0} where
  pub record IsCounted (m : BlockMap Q K V) : Type 0 where
    pub each : (i : ℕ) (b : Fnode K V) → get_elem? m.table i ≡ some b → Counts b
    pub balance : u64 (stored m.table + m.removed) ≡ m.allocated

module _ {Q : LockfreeQueue ℕ} {K V : Type 0} ⦃key : HashKey K⦄ {m : BlockMap Q K V}
    (valid : IsValid m) (counted : IsCounted m) (k : K) where
  link-IsCounted :
      (v : V) (i : ℕ) (b : Fnode K V) (w : Bool × List (Node K V) × List (Node K V))
      → get_elem? m.table i ≡ some b
      → w.1 ++ w.2 ≡ b.nodes
      → IsCounted (after m (link m k v i b w))
  unfolding link Counts u64
  link-IsCounted v i b (true, before, after) at e = counted
  link-IsCounted v i b (false, before, after) at e =
      let r = take_node m.pl.chunk_size m.pl.next_node (pooled m.pl) in
      let (pl, popped, took) = memory_pool_pop-take_node m.pl valid.chunks in
      let new_node : Node K V = record { node_id = r.0; key = k; value = v } in
      let b' : Fnode K V = record b {
        nodes = before ++ (new_node ∷ after);
        num_nodes = u64 (b.num_nodes + 1);
      } in
      let longer : length (before ++ (new_node ∷ after)) ≡ length b.nodes + 1 =
        omega (
          arith,
          length-append before (new_node ∷ after),
          length-append before after,
          ap length e,
        ) in
      rw popped (record {
        each =
            set-all Counts m.table i b' counted.each (omega (arith, counted.each i b at, longer));
        balance = omega (arith, counted.balance, stored-set m.table i b b' at, longer);
      })

  pub insert-IsCounted : (v : V) → IsCounted (after m (insert m k v))
  unfolding insert
  insert-IsCounted v =
      let (b, found, at, reads, lt) = locate-home k valid in
      rw found (link-IsCounted v _ b _ at (insert_walk-append k false b.nodes))

  pub update_field-IsCounted : (fn : V → V) → IsCounted (after m (update_field m k fn))
  unfolding update_field Counts
  update_field-IsCounted fn =
      let (b, found, at, reads, lt) = locate-home k valid in
      let b' : Fnode K V = record b { nodes = (update_walk k fn false b.nodes).1 } in
      let same = length-update_walk k fn false b.nodes in
      rw found (record {
        each =
            set-all Counts m.table (home m k) b' counted.each
              (counted.each (home m k) b at ∙ ap u64 (sym same));
        balance =
            ap u64 (omega (arith, stored-set m.table (home m k) b b' at, same)) ∙ counted.balance;
      })

  unlink-IsCounted :
      (i : ℕ) (b : Fnode K V) (w : List (Node K V) × List (Node K V))
      → get_elem? m.table i ≡ some b
      → w.0 ++ w.1 ≡ b.nodes
      → IsCounted (unlink m k i b w).1
  unfolding unlink Counts u64
  unlink-IsCounted i b (before, []) at e = counted
  unlink-IsCounted i b (before, n ∷ after) at e =
      let b' : Fnode K V = record b {
        nodes = before ++ after;
        num_nodes = u64 (b.num_nodes + uint64_max);
      } in
      let shorter : length b.nodes ≡ length (before ++ after) + 1 =
        omega (arith, length-append before (n ∷ after), length-append before after, ap length e) in
      elim (Bool-cases (n.key ≈ k)) [
        | inr other ↦ rw other counted
        | inl same ↦ rw same (record {
          each =
              set-all Counts m.table i b' counted.each
                (omega (arith, counted.each i b at, shorter));
          balance = omega (arith, counted.balance, stored-set m.table i b b' at, shorter);
        })
      ]

  pub erase-IsCounted : IsCounted (after m (erase m k))
  unfolding erase
  erase-IsCounted =
      let (b, found, at, reads, lt) = locate-home k valid in
      rw found (unlink-IsCounted _ b _ at (erase_walk-append k b.nodes))
