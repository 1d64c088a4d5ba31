-- ===== src/BlockMap/View.antt =====
-- The table as a map from keys to values: what each operation returns, and what it changes.
use hcl.Base.{
  ℕ, ◌%◌, ◌<◌, ◌≡◌, refl, sym, ◌∙◌, true, Option, some, none, if◌then◌else◌, arith, inl, inr,
  Bool-cases, length, get_elem?, set, uint64_max, mod_lt, ◌==◌, mod?-pos, get_elem?-total,
  get_elem?-set, set-all, get_elem?-lt, length-set,
}
use hcl.HashKey.{HashKey, ◌≈◌, ≈-hash}
use hcl.LockfreeQueue.{LockfreeQueue}
use hcl.BlockMap.{Fnode, BlockMap, key_to_index, locate}
use hcl.BlockMap.Chain.{value_of, IsChain, value_of_congr}

module _ {K V : Type 0} ⦃key : HashKey K⦄ where
  unfoldable pub value_in : K → Option (Fnode K V) → Option V
  value_in k none = none
  value_in k (some b) = value_of k b.nodes

module _ {Q : LockfreeQueue ℕ} {K V : Type 0} ⦃key : HashKey K⦄ where
  -- a table as the constructor and the operations leave it
  pub record IsValid (m : BlockMap Q K V) : Type 0 where
    pub size_pos : 0 < m.max_size
    pub size_max : m.max_size < uint64_max
    pub width : length m.table ≡ m.max_size
    pub chains : (i : ℕ) (b : Fnode K V) → get_elem? m.table i ≡ some b → IsChain b.nodes
    pub heads : (i : ℕ) (b : Fnode K V) → get_elem? m.table i ≡ some b → b.head.key ≡ m.empty_key
    pub chunks : 0 < m.pl.chunk_size

  -- the map that the table stands for
  unfoldable pub view : BlockMap Q K V → K → Option V
  unfolding value_in
  view m k = value_in k (get_elem? m.table (key.hash k % m.max_size))

  pub home : BlockMap Q K V → K → ℕ
  home m k = key.hash k % m.max_size

  pub home-lt : {m : BlockMap Q K V} (k : K) → IsValid m → home m k < m.max_size
  unfolding home
  home-lt {m} k v = mod_lt (key.hash k) m.max_size v.size_pos

  -- the bucket of a key is there
  pub locate-home :
      {m : BlockMap Q K V} (k : K)
      → IsValid m
      → (b : Fnode K V) × (locate m k ≡ some (home m k, b))
        × (get_elem? m.table (home m k) ≡ some b)
        × (view m k ≡ value_of k b.nodes)
        × (home m k < length m.table)
  unfolding locate key_to_index home view
  locate-home {m} k v =
      let lt : key.hash k % m.max_size < length m.table =
        rw v.width (mod_lt (key.hash k) m.max_size v.size_pos) in
      let (b, e) = get_elem?-total m.table (key.hash k % m.max_size) lt in
      (b, rw (mod?-pos (key.hash k) m.max_size v.size_pos) (rw e), e, rw e, lt)

  -- a table with one bucket replaced
  module _ {m : BlockMap Q K V} (valid : IsValid m) (i : ℕ) (b b' : Fnode K V)
      (old : get_elem? m.table i ≡ some b) where
    pub set-IsValid :
        (m' : BlockMap Q K V)
        → m'.table ≡ set m.table i b'
        → m'.max_size ≡ m.max_size
        → m'.empty_key ≡ m.empty_key
        → m'.pl.chunk_size ≡ m.pl.chunk_size
        → b'.head.key ≡ b.head.key
        → IsChain b'.nodes
        → IsValid m'
    set-IsValid m' t s e c h chain = record {
      size_pos = omega arith;
      size_max = omega arith;
      width = rw (t, length-set) (valid.width ∙ sym s);
      chains = rw t (set-all (λ c. IsChain c.nodes) m.table i b' valid.chains chain);
      heads =
          rw (t, e)
            (set-all (λ c. c.head.key ≡ m.empty_key) m.table i b' valid.heads
              (h ∙ valid.heads i b old));
      chunks = omega arith;
    }

    pub set-view :
        (m' : BlockMap Q K V) (q : K)
        → m'.table ≡ set m.table i b'
        → m'.max_size ≡ m.max_size
        → view m' q ≡ (if home m q == i then value_of q b'.nodes else view m q)
    unfolding view home
    set-view m' q t s =
        rw
          (
            t,
            s,
            get_elem?-set m.table i (key.hash q % m.max_size) b' (get_elem?-lt m.table i b old),
          )
          (elim (Bool-cases (key.hash q % m.max_size == i)) [ inl p ↦ rw p | inr p ↦ rw p ])

  module _ {m : BlockMap Q K V} (valid : IsValid m) (k : K) where
    pub same_home : (q : K) → (k ≈ q) ≡ true → home m q ≡ home m k
    unfolding home
    same_home q e = rw (≈-hash k q e)

    pub reads_at :
        (b : Fnode K V) (q : K)
        → get_elem? m.table (home m k) ≡ some b
        → home m q ≡ home m k
        → view m q ≡ value_of q b.nodes
    unfolding view home
    reads_at b q e h = rw (h, e)

    pub view_congr : (q : K) → (k ≈ q) ≡ true → view m k ≡ view m q
    unfolding view value_in
    view_congr q e = rw (≈-hash k q e) (same_in (get_elem? m.table (key.hash q % m.max_size)))
      where
        same_in : (o : Option (Fnode K V)) → value_in k o ≡ value_in q o
        same_in none = refl
        same_in (some b) = value_of_congr k q b.nodes e

    -- a bucket that changed at the key alone changes the map there alone
    pub changed :
        (b b' : Fnode K V) (m' : BlockMap Q K V) (x : Option V) (q : K)
        → get_elem? m.table (home m k) ≡ some b
        → m'.table ≡ set m.table (home m k) b'
        → m'.max_size ≡ m.max_size
        → value_of q b'.nodes ≡ (if k ≈ q then x else value_of q b.nodes)
        → view m' q ≡ (if k ≈ q then x else view m q)
    changed b b' m' x q at t s e =
        ground (arith, set-view valid (home m k) b b' at m' q t s, same_home q, reads_at b q at)
