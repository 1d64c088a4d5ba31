-- ===== src/BlockMap/Construct.antt =====
-- The constructor: a valid table that stands for the empty map.
use hcl.Base.{
  ℕ, zero, suc, ◌%◌, ◌<◌, ◌≡◌, refl, ap, List, [], ◌∷◌, Option, some, none, length, cons-all,
  get_elem?, uint64_max, arith, lt→ltb, ◌∙◌,
}
use hcl.HashKey.{HashKey}
use hcl.LockfreeQueue.{LockfreeQueue}
use hcl.MemoryPool.{MemoryPool, pooled}
use hcl.MemoryPool.Take.{memory_pool_pop-take_node, take_node}
use hcl.BlockMap.{Fnode, BlockMap, init_table, new_block_map}
use hcl.BlockMap.Chain.{value_of}
use hcl.BlockMap.View.{IsValid, view, value_in}

module _ {K V : Type 0} ⦃key : HashKey K⦄ where
  value_of-bucket :
      (k : K) (o : Option (Fnode K V))
      → ((b : Fnode K V) → o ≡ some b → b.nodes ≡ [])
      → value_in k o ≡ none
  unfolding value_in value_of
  value_of-bucket k none h = refl
  value_of-bucket k (some b) h = rw (h b refl)

module _ {Q : LockfreeQueue ℕ} {K V : Type 0} ⦃key : HashKey K⦄ where
  record Fresh (n : ℕ) (max_key : K) (size : ℕ) (t : List (Fnode K V)) (p : MemoryPool Q)
      : Type 0 where
    width : length t ≡ n
    empty :
        (i : ℕ) (b : Fnode K V) → get_elem? t i ≡ some b → (b.nodes ≡ []) × (b.head.key ≡ max_key)
    chunks : p.chunk_size ≡ size

  init_table-Fresh :
      (n : ℕ) (value_init : V) (max_key : K) (p : MemoryPool Q)
      → 0 < p.chunk_size
      → (t : List (Fnode K V)) × (p' : MemoryPool Q) × (init_table n value_init max_key p
          ≡ some (t, p'))
        × Fresh n max_key p.chunk_size t p'
  unfolding init_table
  init_table-Fresh zero value_init max_key p pos =
      ([], p, refl, record { width = refl; empty = λ i b e. cc; chunks = refl })
  init_table-Fresh (suc n) value_init max_key p pos =
      let (p₁, popped, took) = memory_pool_pop-take_node p pos in
      let (t, p₂, run, f) = init_table-Fresh n value_init max_key p₁ (omega arith) in
      let b : Fnode K V = record {
        num_nodes = 0;
        head = record {
          node_id = (take_node p.chunk_size p.next_node (pooled p)).0;
          key = max_key;
          value = value_init;
        };
        nodes = [];
      } in
      (
        b ∷ t,
        p₂,
        rw (popped, run),
        record {
          width = ap suc f.width;
          empty = cons-all (λ c. (c.nodes ≡ []) × (c.head.key ≡ max_key)) b t (refl, refl) f.empty;
          chunks = f.chunks ∙ took.size;
        },
      )

  -- On a pool whose chunks are not empty, the constructor returns for every size from 1 up to below
  -- UINT64_MAX, and the table is valid and holds no key.
  pub new_block_map-view :
      (n : ℕ) (p : MemoryPool Q) (value_init : V) (max_key : K)
      → 0 < n
      → n < uint64_max
      → 0 < p.chunk_size
      → (m : BlockMap Q K V) × (new_block_map n p value_init max_key ≡ some m)
        × IsValid m
        × ((q : K) → view m q ≡ none)
        × (m.empty_key ≡ max_key)
  unfolding new_block_map view value_of
  new_block_map-view n p value_init max_key lo hi pos =
      let (t, pl, run, f) = init_table-Fresh n value_init max_key p pos in
      let m : BlockMap Q K V = record {
        table = t;
        max_size = n;
        allocated = 0;
        removed = 0;
        pl = pl;
        empty_key = max_key;
      } in
      (
        m,
        rw (lt→ltb 0 n lo, run, lt→ltb n uint64_max hi),
        record {
          size_pos = lo;
          size_max = hi;
          width = f.width;
          chains = λ i b e. rw (f.empty i b e).0 tt;
          heads = λ i b e. (f.empty i b e).1;
          chunks = omega arith;
        },
        λ q. value_of-bucket q (get_elem? t (key.hash q % n)) (λ b e. (f.empty _ b e).0),
        refl,
      )
