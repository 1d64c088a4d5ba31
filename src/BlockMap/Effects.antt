-- ===== src/BlockMap/Effects.antt =====
-- What each operation of the table returns, and what it does to the map that the table stands for.
use hcl.Base.{
  is_some, ℕ, ◌+◌, ◌≤◌, ◌<◌, ◌≡◌, refl, sym, ◌∙◌, Bool, true, false, ◌&&◌, not, List, [], ◌∷◌, ◌++◌,
  some, none, if◌then◌else◌, arith, inl, inr, Bool-cases, lt→ltb, le→ltb, get_elem?, set,
  uint64_max, ◌==◌, u64,
}
use hcl.HashKey.{HashKey, ◌≈◌, ≈-hash}
use hcl.LockfreeQueue.{LockfreeQueue}
use hcl.MemoryPool.{memory_pool_push, pooled}
use hcl.MemoryPool.Take.{chunk_size-memory_pool_push, memory_pool_pop-take_node, take_node}
use hcl.BlockMap.{
  Node, Fnode, BlockMap, update_walk, get_walk, erase_walk, not_in_table, exists, inserted,
  put_bucket, link, insert, find, update, update_field, get, unlink, erase,
}
use hcl.BlockMap.Chain.{
  value_of, find_walk-value_of, get_walk-value_of, update_walk-value_of, update_walk-found,
  update_walk-IsChain,
}
use hcl.BlockMap.Relink.{
  insert_walk-found, linked, linked-value_of, linked-IsChain, met, erase_walk-met,
  unlinked-value_of, unlinked-IsChain,
}
use hcl.BlockMap.View.{
  IsValid, view, home, locate-home, home-lt, set-IsValid, set-view, same_home, reads_at, view_congr,
  changed,
}

module _ {Q : LockfreeQueue ℕ} {K V : Type 0} ⦃key : HashKey K⦄ where
  module _ {m : BlockMap Q K V} (valid : IsValid m) (k : K) where
    -- On a valid table, insert returns, with EXISTS if the key was there and else INSERTED; the table
    -- stays valid; a key that was there keeps its value, a new one gets `v`, and no other key changes.
    pub insert-view :
        (v : V)
        → let old = view m k in
          (m' : BlockMap Q K V) × (insert m k v
            ≡ some (if is_some old then exists else inserted, m'))
          × IsValid m'
          × ((q : K) → view m' q ≡ (if (k ≈ q) && not (is_some old) then some v else view m q))
          × (m'.empty_key ≡ m.empty_key)
    unfolding insert link
    insert-view v =
        let (b, found, at, reads, lt) = locate-home k valid in
        let chain = valid.chains _ b at in
        let walked = insert_walk-found k false b.nodes chain in
        let (pl, popped, took) = memory_pool_pop-take_node m.pl valid.chunks in
        let new_node : Node K V = record {
          node_id = (take_node m.pl.chunk_size m.pl.next_node (pooled m.pl)).0;
          key = k;
          value = v;
        } in
        let b' : Fnode K V = record {
          num_nodes = u64 (b.num_nodes + 1);
          head = b.head;
          nodes = linked new_node false b.nodes;
        } in
        let m' = record m {
          table = set m.table (home m k) b';
          allocated = u64 (m.allocated + 1);
          pl = pl;
        } in
        elim (Bool-cases (is_some (view m k))) [
          | inl old ↦ (m, rw (found, walked, ← reads, old), valid, λ q. ground (arith, old), refl)
          | inr new ↦
              let absent : value_of k b.nodes ≡ none = ground (arith, new, reads) in
              (
                m',
                rw (found, walked, ← reads, new, popped),
                set-IsValid valid (home m k) b b' at m' refl refl refl took.size refl
                    (linked-IsChain new_node false b.nodes chain absent),
                λ q. ground (
                  arith,
                  new,
                  changed valid k b b' m' (some v) q at refl refl
                      (linked-value_of new_node false b.nodes q absent),
                ),
                refl,
              )
        ]

    -- On a valid table, find returns a position, and NOT_IN_TABLE just if the key is not there.
    pub find-view : (p : ℕ) × (find m k ≡ some p) × ((p == not_in_table) ≡ not (is_some (view m k)))
    unfolding find
    find-view =
        let (b, found, at, reads, lt) = locate-home k valid in
        (
          (if is_some (view m k) then home m k else not_in_table),
          rw (found, find_walk-value_of k false b.nodes (valid.chains _ b at), reads),
          ground (arith, home-lt k valid, valid.size_max),
        )

    -- On a valid table, update_field tells whether the key was there, and the table stays valid; the
    -- value of the key, where it has one, is what `fn` makes of it, and no other key changes.
    pub update_field-view :
        (fn : V → V)
        → (m' : BlockMap Q K V) × (update_field m k fn ≡ some (is_some (view m k), m'))
          × IsValid m'
          × ((q : K)
              → view m' q
                ≡ elim (view m q) [ none ↦ none | some w ↦ some (if k ≈ q then fn w else w) ])
          × (m'.empty_key ≡ m.empty_key)
    unfolding update_field
    update_field-view fn =
        let (b, found, at, reads, lt) = locate-home k valid in
        let chain = valid.chains _ b at in
        let b' : Fnode K V = record b { nodes = (update_walk k fn false b.nodes).1 } in
        let m' = put_bucket m (home m k) b' in
        (
          m',
          rw (found, update_walk-found k fn false b.nodes chain, reads),
          set-IsValid valid (home m k) b b' at m' refl refl refl refl refl
              (update_walk-IsChain k fn false b.nodes chain),
          λ q. ground (
            arith,
            set-view valid (home m k) b b' at m' q refl refl,
            same_home valid k q,
            reads_at valid k b q at,
            update_walk-value_of k fn false b.nodes q chain,
          ),
          refl,
        )

    pub update-field : (v : V) → update m k v ≡ update_field m k (λ _. v)
    unfolding update
    update-field v = refl

    Erased : Bool × BlockMap Q K V → Type 0
    Erased r =
        (r.0 ≡ is_some (view m k))
        × IsValid r.1
        × ((q : K) → view r.1 q ≡ (if k ≈ q then none else view m q))
        × (r.1.empty_key ≡ m.empty_key)

    nothing-Erased : is_some (view m k) ≡ false → Erased (false, m)
    unfolding Erased
    nothing-Erased e = (sym e, valid, λ q. ground (arith, e, view_congr valid k q), refl)

    unlink-Erased :
        (b : Fnode K V) (w : List (Node K V) × List (Node K V))
        → get_elem? m.table (home m k) ≡ some b
        → view m k ≡ value_of k b.nodes
        → erase_walk k b.nodes ≡ w
        → Erased (unlink m k (home m k) b w)
    unfolding unlink Erased
    unlink-Erased b (before, []) at reads e =
        nothing-Erased (rw reads (sym (erase_walk-met k b.nodes (valid.chains _ b at)) ∙ rw e))
    unlink-Erased b (before, n ∷ after) at reads e =
        let chain = valid.chains _ b at in
        let here : met k (n ∷ after) ≡ is_some (view m k) =
          rw reads (rw e at (erase_walk-met k b.nodes chain)) in
        elim (Bool-cases (n.key ≈ k)) [
          | inr other ↦ rw other (nothing-Erased (sym here ∙ other))
          | inl same ↦
              let met_it : met k (erase_walk k b.nodes).1 ≡ true = rw e same in
              let b' : Fnode K V = record b {
                nodes = before ++ after;
                num_nodes = u64 (b.num_nodes + uint64_max);
              } in
              let m' = record m {
                table = set m.table (home m k) b';
                pl = memory_pool_push n.node_id m.pl;
                removed = u64 (m.removed + 1);
              } in
              rw same (
                sym same ∙ here,
                set-IsValid valid (home m k) b b' at m' refl refl refl
                    (chunk_size-memory_pool_push n.node_id m.pl) refl
                    (rw e at (unlinked-IsChain k b.nodes chain met_it)),
                λ q.
                    changed valid k b b' m' none q at refl refl
                      (rw e at (unlinked-value_of k b.nodes q chain met_it)),
                refl,
              )
        ]

    -- On a valid table, erase tells whether the key was there, and the table stays valid; the key is
    -- gone, and no other key changes.
    pub erase-view :
        (m' : BlockMap Q K V) × (erase m k ≡ some (is_some (view m k), m'))
        × IsValid m'
        × ((q : K) → view m' q ≡ (if k ≈ q then none else view m q))
        × (m'.empty_key ≡ m.empty_key)
    unfolding erase Erased
    erase-view =
        let (b, found, at, reads, lt) = locate-home k valid in
        let (flag, keeps, map, same) = unlink-Erased b _ at reads refl in
        (_, rw (found, ← flag), keeps, map, same)

    pub get_total : (v : V) → (r : Bool × V) × (get m k v ≡ some r)
    unfolding get
    get_total v =
        let (b, found, at, reads, _) = locate-home k valid in
        (get_walk k false v (b.head ∷ b.nodes), rw found refl)

    -- On a valid table, get of a key that does not hash below the table's empty key and is not that key
    -- answers the value of the key, or leaves the caller's variable alone where there is none.
    pub get-view :
        (v : V)
        → key.hash m.empty_key ≤ key.hash k
        → (m.empty_key ≈ k) ≡ false
        → get m k v ≡ some (elim (view m k) [ none ↦ (false, v) | some w ↦ (true, w) ])
    unfolding get get_walk
    get-view v le other =
        let (b, found, at, reads, lt) = locate-home k valid in
        rw (
          found,
          valid.heads _ b at,
          other,
          le→ltb _ _ le,
          get_walk-value_of k false v b.nodes (valid.chains _ b at),
          reads,
        )

    -- On a valid table, get of a key that hashes below the table's empty key finds nothing, whatever the
    -- table holds, and leaves the caller's variable alone.
    pub get_misses : (v : V) → key.hash k < key.hash m.empty_key → get m k v ≡ some (false, v)
    unfolding get get_walk
    get_misses v lt =
        let (b, found, at, reads, _) = locate-home k valid in
        rw (found, valid.heads _ b at, lt→ltb _ _ lt) (ground (arith, ≈-hash m.empty_key k))
