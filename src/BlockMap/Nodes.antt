-- ===== src/BlockMap/Nodes.antt =====
-- Where the nodes are: each node that malloc ever handed out is in exactly one place, the pool or one
-- bucket, so none is used twice and none is lost.
use hcl.Base.{
  ℕ, zero, suc, ◌+◌, ◌≡◌, refl, ap, Bool, true, false, List, [], ◌∷◌, ◌++◌, Option, some, none, ltb,
  ◌==◌, to_nat, get_elem?, set, count, count-nil, count-cons, count-append, arith, u64, uint64_max,
  Bool-cases, inl, inr,
}
use mathlib.Core.Option.{some-injective}
use hcl.HashKey.{HashKey, ◌≈◌}
use hcl.LockfreeQueue.{LockfreeQueue}
use hcl.MemoryPool.{pooled}
use hcl.MemoryPool.Take.{
  take_node, memory_pool_pop-take_node, pooled-memory_pool_push, next_node-memory_pool_push,
}
use hcl.MemoryPool.Count.{count-take_node}
use hcl.BlockMap.View.{IsValid, home, locate-home}
use hcl.BlockMap.{Node, Fnode, BlockMap, insert, erase, update_field, link, unlink, update_walk}
use hcl.BlockMap.Relink.{insert_walk-append, erase_walk-append}

module _ {K V : Type 0} where
  ids : List (Node K V) → List ℕ
  ids [] = []
  ids (n ∷ ns) = n.node_id ∷ ids ns

  -- the nodes of the buckets
  pub placed : List (Fnode K V) → List ℕ
  unfolding ids
  placed [] = []
  placed (b ∷ bs) = (b.head.node_id ∷ ids b.nodes) ++ placed bs

  ids-append : (xs ys : List (Node K V)) → ids (xs ++ ys) ≡ ids xs ++ ids ys
  unfolding ids
  ids-append [] ys = refl
  ids-append (x ∷ xs) ys = ap (◌∷◌ x.node_id) (ids-append xs ys)

  pub count-placed-nil : (a : ℕ) (t : List (Fnode K V)) → t ≡ [] → count a (placed t) ≡ 0
  unfolding placed
  count-placed-nil a t e = rw e (count-nil a)

  -- a bucket without keys holds its head alone
  pub count-placed-empty :
      (a i : ℕ) (k : K) (v : V) (bs : List (Fnode K V))
      → count a (
          placed (
            record { num_nodes = 0; head = record { node_id = i; key = k; value = v }; nodes = [] }
            ∷ bs))
        ≡ to_nat (a == i) + count a (placed bs)
  unfolding placed ids
  count-placed-empty a i k v bs = count-cons a i (placed bs)

  -- a write to one bucket exchanges its nodes
  count-placed-set :
      (a : ℕ) (t : List (Fnode K V)) (i : ℕ) (b b' : Fnode K V)
      → get_elem? t i ≡ some b
      → b'.head.node_id ≡ b.head.node_id
      → count a (placed (set t i b')) + count a (ids b.nodes)
        ≡ count a (placed t) + count a (ids b'.nodes)
  unfolding placed
  count-placed-set a [] i b b' e h = absurd (cc)
  count-placed-set a (x ∷ xs) zero b b' e h =
      simp (count-cons, count-append, h) (rw (some-injective x b e) (omega arith))
  count-placed-set a (x ∷ xs) (suc i) b b' e h =
      simp (count-cons, count-append) (omega (arith, count-placed-set a xs i b b' e h))

  -- a node between the parts of a chain
  count-between :
      (n : Node K V) (before after ns : List (Node K V)) (a : ℕ)
      → before ++ after ≡ ns
      → count a (ids (before ++ (n ∷ after))) ≡ to_nat (a == n.node_id) + count a (ids ns)
  unfolding ids
  count-between n before after ns a e =
      rw (← e) (simp (ids-append, count-append, count-cons) (omega arith))

  ids-update_walk :
      ⦃key : HashKey K⦄ (k : K) (fn : V → V) (found : Bool) (ns : List (Node K V))
      → ids (update_walk k fn found ns).1 ≡ ids ns
  unfolding ids update_walk
  ids-update_walk k fn found [] = refl
  ids-update_walk k fn found (n ∷ ns) =
      ground (arith, ids-update_walk k fn found ns, ids-update_walk k fn true ns)

module _ {Q : LockfreeQueue ℕ} {K V : Type 0} where
  -- every number below `next_node` is one node's, in the pool or in a bucket, and no other is
  pub record IsConserved (m : BlockMap Q K V) : Type 0 where
    pub once :
        (a : ℕ) → count a (pooled m.pl) + count a (placed m.table) ≡ to_nat (ltb a m.pl.next_node)

  -- what a call leaves, if it returns
  abbrev pub after {ℓ} :
      {R : Type ℓ} → BlockMap Q K V → Option (R × BlockMap Q K V) → BlockMap Q K V
  after m none = m
  after m (some (r, m')) = m'

module _ {Q : LockfreeQueue ℕ} {K V : Type 0} ⦃key : HashKey K⦄ {m : BlockMap Q K V}
    (valid : IsValid m) (whole : IsConserved m) (k : K) where
  link-IsConserved :
      (v : V) (i : ℕ) (b : Fnode K V) (w : Bool × List (Node K V) × List (Node K V))
      → get_elem? m.table i ≡ some b
      → w.1 ++ w.2 ≡ b.nodes
      → IsConserved (after m (link m k v i b w))
  unfolding link
  link-IsConserved v i b (true, before, after) at e = whole
  link-IsConserved v i b (false, before, after) at e =
      let r = take_node m.pl.chunk_size m.pl.next_node (pooled m.pl) in
      let (pl, popped, took) = memory_pool_pop-take_node m.pl valid.chunks in
      let new_node : Node K V = record { node_id = r.0; key = k; value = v } in
      let b' : Fnode K V = record b {
        nodes = before ++ (new_node ∷ after);
        num_nodes = u64 (b.num_nodes + 1);
      } in
      rw popped (record {
        once = λ a.
            rw (took.waiting, took.next)
              (omega (
                arith,
                whole.once a,
                count-placed-set a m.table i b b' at refl,
                count-between new_node before after b.nodes a e,
                count-take_node a m.pl.chunk_size m.pl.next_node (pooled m.pl) valid.chunks,
              ));
      })

  pub insert-IsConserved : (v : V) → IsConserved (after m (insert m k v))
  unfolding insert
  insert-IsConserved v =
      let (b, found, at, reads, lt) = locate-home k valid in
      rw found (link-IsConserved v _ b _ at (insert_walk-append k false b.nodes))

  pub update_field-IsConserved : (fn : V → V) → IsConserved (after m (update_field m k fn))
  unfolding update_field
  update_field-IsConserved fn =
      let (b, found, at, reads, lt) = locate-home k valid in
      let b' : Fnode K V = record b { nodes = (update_walk k fn false b.nodes).1 } in
      rw found (record {
        once = λ a. omega (
          arith,
          whole.once a,
          count-placed-set a m.table (home m k) b b' at refl,
          ap (count a) (ids-update_walk k fn false b.nodes),
        );
      })

  unlink-IsConserved :
      (i : ℕ) (b : Fnode K V) (w : List (Node K V) × List (Node K V))
      → get_elem? m.table i ≡ some b
      → w.0 ++ w.1 ≡ b.nodes
      → IsConserved (unlink m k i b w).1
  unfolding unlink
  unlink-IsConserved i b (before, []) at e = whole
  unlink-IsConserved i b (before, n ∷ after) at e =
      let b' : Fnode K V = record b {
        nodes = before ++ after;
        num_nodes = u64 (b.num_nodes + uint64_max);
      } in
      elim (Bool-cases (n.key ≈ k)) [
        | inr other ↦ rw other whole
        | inl same ↦ rw same (record {
          once = λ a.
              rw (pooled-memory_pool_push n.node_id m.pl, next_node-memory_pool_push n.node_id m.pl)
                (omega (
                  arith,
                  whole.once a,
                  count-append a (pooled m.pl) (n.node_id ∷ []),
                  count-cons a n.node_id [],
                  count-nil a,
                  count-placed-set a m.table i b b' at refl,
                  count-between n before after (before ++ after) a refl,
                  ap (λ l. count a (ids l)) e,
                ));
        })
      ]

  pub erase-IsConserved : IsConserved (after m (erase m k))
  unfolding erase
  erase-IsConserved =
      let (b, found, at, reads, lt) = locate-home k valid in
      rw found (unlink-IsConserved _ b _ at (erase_walk-append k b.nodes))
