-- ===== src/BlockMap.antt =====
-- include/hcl/base/containers/concurrent_unordered_map/block_map.h: the fixed table of chains that
-- one server keeps, a chain sorted by hash behind a first node that holds the empty key. A chain is
-- the list of its nodes, each with the number that the pool gave it; an operation holds the mutex of
-- its bucket from end to end and is one step. Chain and
-- Relink have the laws of the loops, View the map that the table stands for, Effects what the
-- operations do to it, Construct the constructor, Nodes and History where each allocated node is,
-- Counters and Tally what the counters say.
pub mod Chain
mod Relink
pub mod View
pub mod Effects
pub mod Construct
pub mod Nodes
pub mod History
pub mod Counters
pub mod Tally
use hcl.Base.{
  ℕ, zero, suc, ◌+◌, ◌-◌, Bool, true, false, ◌&&◌, ◌||◌, List, [], ◌∷◌, ◌++◌, Option, some, none,
  ltb, length, get_elem?, set, u64, mod?, uint64_max, if◌then◌else◌, require, ◌>>=◌, ◌>>◌,
}
use hcl.HashKey.{HashKey, ◌≈◌}
use hcl.LockfreeQueue.{LockfreeQueue}
use hcl.MemoryPool.{MemoryPool, memory_pool_pop, memory_pool_push}

-- memory_allocation.h, struct node; `next` is the place in the list
pub record Node (K V : Type 0) : Type 0 where
  pub node_id : ℕ
  pub key : K
  pub value : V

-- struct f_node; `nodes` are those behind the head
pub record Fnode (K V : Type 0) : Type 0 where
  pub num_nodes : ℕ
  pub head : Node K V
  pub nodes : List (Node K V)

pub record BlockMap (Q : LockfreeQueue ℕ) (K V : Type 0) : Type 0 where
  pub table : List (Fnode K V)
  pub max_size : ℕ
  pub allocated : ℕ
  pub removed : ℕ
  pub pl : MemoryPool Q
  pub empty_key : K

abbrev pub not_in_table : ℕ
not_in_table = uint64_max

abbrev pub exists : ℕ
exists = 1

abbrev pub inserted : ℕ
inserted = 0

module _ {K V : Type 0} ⦃key : HashKey K⦄ where
  -- the loop of insert: whether the key was met, the nodes up to `p`, and those from `n` on
  pub insert_walk : K → Bool → List (Node K V) → Bool × List (Node K V) × List (Node K V)
  insert_walk k found [] = (found, [], [])
  insert_walk k found (n ∷ ns) =
      let found' = if n.key ≈ k then true else found in
      let (f, before, after) = insert_walk k found' ns in
      if ltb (key.hash k) (key.hash n.key) then (found', [], n ∷ ns) else (f, n ∷ before, after)

  -- the loop of find
  pub find_walk : K → Bool → List (Node K V) → Bool
  find_walk k found [] = found
  find_walk k found (n ∷ ns) =
      let found' = if n.key ≈ k then true else found in
      let rest = find_walk k found' ns in if ltb (key.hash k) (key.hash n.key) then found' else rest

  -- the loop of update and of update_field, which differ in what they do to a value
  pub update_walk : K → (V → V) → Bool → List (Node K V) → Bool × List (Node K V)
  update_walk k fn found [] = (found, [])
  update_walk k fn found (n ∷ ns) =
      let found' = if n.key ≈ k then true else found in
      let n' = if n.key ≈ k then record n { value = fn n.value } else n in
      let (f, rest) = update_walk k fn found' ns in
      if ltb (key.hash k) (key.hash n.key) then (found', n' ∷ ns) else (f, n' ∷ rest)

  -- the loop of get, which starts at the head; the second part is `*v`
  pub get_walk : K → Bool → V → List (Node K V) → Bool × V
  get_walk k found v [] = (found, v)
  get_walk k found v (n ∷ ns) =
      let found' = if n.key ≈ k then true else found in
      let v' = if n.key ≈ k then n.value else v in
      let rest = get_walk k found' v' ns in
      if ltb (key.hash k) (key.hash n.key) then (found', v') else rest

  -- the loop of erase: the nodes up to `p`, and those from `n` on
  pub erase_walk : K → List (Node K V) → List (Node K V) × List (Node K V)
  erase_walk k [] = ([], [])
  erase_walk k (n ∷ ns) =
      let (before, after) = erase_walk k ns in
      if n.key ≈ k
      then ([], n ∷ ns)
      else (if ltb (key.hash k) (key.hash n.key) then ([], n ∷ ns) else (n ∷ before, after))

module _ {K V : Type 0} where
  -- the loop of count_block_entries, from `num_entries` on
  pub count_block_entries : ℕ → List (Fnode K V) → ℕ
  count_block_entries num_entries [] = num_entries
  count_block_entries num_entries (b ∷ bs) =
      count_block_entries (u64 (num_entries + b.num_nodes)) bs

module _ {Q : LockfreeQueue ℕ} {K V : Type 0} ⦃key : HashKey K⦄ where
  -- the loop of the constructor over the buckets; `value_init` is ValueT()
  pub init_table : ℕ → V → K → MemoryPool Q → Option (List (Fnode K V) × MemoryPool Q)
  init_table zero value_init max_key m = some ([], m)
  init_table (suc n) value_init max_key m = do
    (id, m₁) ← memory_pool_pop 2 m
    (rest, m₂) ← init_table n value_init max_key m₁
    let head : Node K V = record { node_id = id; key = max_key; value = value_init }
    some (record { num_nodes = 0; head = head; nodes = [] } ∷ rest, m₂)

  -- none: an assertion fails
  pub new_block_map : ℕ → MemoryPool Q → V → K → Option (BlockMap Q K V)
  new_block_map n m value_init max_key = do
    require (ltb 0 n)
    (table, pl) ← init_table n value_init max_key m
    require (ltb n uint64_max)
    some (record {
      table = table;
      max_size = n;
      allocated = 0;
      removed = 0;
      pl = pl;
      empty_key = max_key;
    })

  pub key_to_index : BlockMap Q K V → K → Option ℕ
  key_to_index m k = mod? (key.hash k) m.max_size

  -- `table[pos]`, for the position of the key
  pub locate : BlockMap Q K V → K → Option (ℕ × Fnode K V)
  locate m k = do pos ← key_to_index m k; b ← get_elem? m.table pos; some (pos, b)

  abbrev pub put_bucket : BlockMap Q K V → ℕ → Fnode K V → BlockMap Q K V
  put_bucket m pos b = record m { table = set m.table pos b }

  -- the part of insert behind its loop
  pub link :
      BlockMap Q K V
      → K
      → V
      → ℕ
      → Fnode K V
      → Bool × List (Node K V) × List (Node K V)
      → Option (ℕ × BlockMap Q K V)
  link m k v pos b (true, before, after) = some (exists, m)
  link m k v pos b (false, before, after) = do
    (id, pl) ← memory_pool_pop 2 m.pl
    let new_node : Node K V = record { node_id = id; key = k; value = v }
    let b' : Fnode K V = record b {
      nodes = before ++ (new_node ∷ after);
      num_nodes = u64 (b.num_nodes + 1);
    }
    some (
      inserted,
      record m { table = set m.table pos b'; allocated = u64 (m.allocated + 1); pl = pl },
    )

  pub insert : BlockMap Q K V → K → V → Option (ℕ × BlockMap Q K V)
  insert m k v = do (pos, b) ← locate m k; link m k v pos b (insert_walk k false b.nodes)

  pub find : BlockMap Q K V → K → Option ℕ
  find m k = do
    (pos, b) ← locate m k
    some (if find_walk k false b.nodes then pos else not_in_table)

  -- `fn` is the call of the function pointer on its arguments
  pub update_field : BlockMap Q K V → K → (V → V) → Option (Bool × BlockMap Q K V)
  update_field m k fn = do
    (pos, b) ← locate m k
    let (found, nodes) = update_walk k fn false b.nodes
    some (found, put_bucket m pos (record b { nodes = nodes }))

  pub update : BlockMap Q K V → K → V → Option (Bool × BlockMap Q K V)
  update m k v = update_field m k (λ _. v)

  -- the second argument is what the caller's variable holds
  pub get : BlockMap Q K V → K → V → Option (Bool × V)
  get m k v = do (pos, b) ← locate m k; some (get_walk k false v (b.head ∷ b.nodes))

  -- the part of erase behind its loop
  pub unlink :
      BlockMap Q K V → K → ℕ → Fnode K V → List (Node K V) × List (Node K V) → Bool × BlockMap Q K V
  unlink m k pos b (before, []) = (false, m)
  unlink m k pos b (before, n ∷ after) =
      if n.key ≈ k
      then (
        true,
        record m {
          table =
              set m.table pos
                (record b { nodes = before ++ after; num_nodes = u64 (b.num_nodes + uint64_max) });
          pl = memory_pool_push n.node_id m.pl;
          removed = u64 (m.removed + 1);
        },
      )
      else (false, m)

  pub erase : BlockMap Q K V → K → Option (Bool × BlockMap Q K V)
  erase m k = do (pos, b) ← locate m k; some (unlink m k pos b (erase_walk k b.nodes))

module _ {Q : LockfreeQueue ℕ} {K V : Type 0} where
  unfoldable pub allocated_nodes : BlockMap Q K V → ℕ
  allocated_nodes m = m.allocated

  unfoldable pub removed_nodes : BlockMap Q K V → ℕ
  removed_nodes m = m.removed
