-- ===== src/ConcurrentMap.antt =====
-- include/hcl/concurrent/unordered_map/unordered_map.h and unordered_map.cpp: the class
-- concurrent_unordered_map, with one table on each server, and the client's methods, which send every
-- call to the server that serverLocation names. Cluster has the proof that all the tables together are
-- one map, Census that of a server's counters.
pub mod Promise
pub mod Cluster
pub mod Start
pub mod Census
use hcl.Container.Names.{Binding, Method, codes}
use hcl.Base.{
  [], ◌∷◌, ℕ, Bool, true, false, not, Option, some, none, u16, ◌==◌, if◌then◌else◌, ◌>>=◌, List,
}
use hcl.BlockMap.{
  BlockMap, new_block_map, insert, find, update, get, erase, not_in_table, update_field,
  allocated_nodes, removed_nodes,
}
use hcl.Container.{Rpc}
use hcl.HashKey.{HashKey}
use hcl.LockfreeQueue.{LockfreeQueue}
use hcl.MemoryPool.{new_memory_pool}
use hcl.Partition.{Range, initialize_tables, server_location}

-- the object on one process; `my_table` is none off a server
pub record ConcurrentMap (Q : LockfreeQueue ℕ) (K V : Type 0) : Type 0 where
  pub is_server : Bool
  pub range : Range
  pub my_table : Option (BlockMap Q K V)

-- the functions that bind_functions registers, with their arguments
pub data Request (K V : Type 0) : Type 0 where
  insert_req : K → V → Request K V
  find_req : K → Request K V
  erase_req : K → Request K V
  get_req : K → Request K V
  update_req : K → V → Request K V

pub data Response (V : Type 0) : Type 0 where
  flag : Bool → Response V
  got : V → Response V

module _ {K V : Type 0} where
  abbrev pub key_of : Request K V → K
  key_of (insert_req k v) = k
  key_of (find_req k) = k
  key_of (erase_req k) = k
  key_of (get_req k) = k
  key_of (update_req k v) = k

module _ {Q : LockfreeQueue ℕ} {K V : Type 0} ⦃key : HashKey K⦄ where
  table_of : Bool → Range → V → K → Option (Option (BlockMap Q K V))
  table_of false r value_init max_key = some none
  table_of true r value_init max_key =
      new_block_map r.max_size (new_memory_pool Q 100) value_init max_key >>= λ t. some (some t)

  -- initialize_tables, the tables included; `value_init` is ValueT()
  pub initialize : Bool → ℕ → ℕ → ℕ → V → K → Option (ConcurrentMap Q K V)
  unfolding table_of
  initialize is_server n np rank value_init max_key = do
    r ← initialize_tables n np rank
    t ← table_of is_server r value_init max_key
    some (record { is_server = is_server; range = r; my_table = t })

  put_table : ConcurrentMap Q K V → BlockMap Q K V → ConcurrentMap Q K V
  put_table s t = record s { my_table = some t }

  pub local_insert : K → V → ConcurrentMap Q K V → Option (Bool × ConcurrentMap Q K V)
  unfolding put_table
  local_insert k v s = do t ← s.my_table; (_, t') ← insert t k v; some (true, put_table s t')

  pub local_find : K → ConcurrentMap Q K V → Option (Bool × ConcurrentMap Q K V)
  local_find k s = do
    t ← s.my_table
    pos ← find t k
    some (if not (pos == not_in_table) then true else false, s)

  pub local_erase : K → ConcurrentMap Q K V → Option (Bool × ConcurrentMap Q K V)
  unfolding put_table
  local_erase k s = do t ← s.my_table; (found, t') ← erase t k; some (found, put_table s t')

  pub local_update : K → V → ConcurrentMap Q K V → Option (Bool × ConcurrentMap Q K V)
  unfolding put_table
  local_update k v s = do t ← s.my_table; (found, t') ← update t k v; some (found, put_table s t')

  -- on the server only: no function is bound for it
  local_update_field : K → (V → V) → ConcurrentMap Q K V → Option (Bool × ConcurrentMap Q K V)
  unfolding put_table
  local_update_field k fn s = do
    t ← s.my_table
    (found, t') ← update_field t k fn
    some (found, put_table s t')

  -- `v` is what the variable of the caller holds; the second part of the answer, what it holds then
  local_get : K → V → ConcurrentMap Q K V → Option (Bool × V)
  local_get k v s = do t ← s.my_table; get t k v

  pub local_get_value : V → K → ConcurrentMap Q K V → Option (V × ConcurrentMap Q K V)
  unfolding local_get
  local_get_value value_init k s = do (_, v) ← local_get k value_init s; some (v, s)

  -- data(), allocated() and removed(); none: there is no table
  pub table_data : ConcurrentMap Q K V → Option (BlockMap Q K V)
  table_data s = s.my_table

  pub allocated : ConcurrentMap Q K V → Option ℕ
  allocated s = s.my_table >>= λ t. some (allocated_nodes t)

  pub removed : ConcurrentMap Q K V → Option ℕ
  removed s = s.my_table >>= λ t. some (removed_nodes t)

  -- what a server does with a request
  pub serve : V → Request K V → ConcurrentMap Q K V → Option (Response V × ConcurrentMap Q K V)
  unfolding local_insert local_find local_erase local_update local_get_value
  serve value_init (insert_req k v) s = local_insert k v s >>= λ (b, s'). some (flag b, s')
  serve value_init (find_req k) s = local_find k s >>= λ (b, s'). some (flag b, s')
  serve value_init (erase_req k) s = local_erase k s >>= λ (b, s'). some (flag b, s')
  serve value_init (get_req k) s = local_get_value value_init k s >>= λ (v, s'). some (got v, s')
  serve value_init (update_req k v) s = local_update k v s >>= λ (b, s'). some (flag b, s')

  -- Insert, Find, Erase, Get and Update on a client: `key_int` is the server's number as a uint16_t
  pub remote :
      (value_init : V)
      → ℕ
      → ℕ
      → Rpc (serve value_init)
      → List (ConcurrentMap Q K V)
      → Request K V
      → Option (Response V × List (ConcurrentMap Q K V))
  remote value_init num_servers total_size rpc servers req = do
    id ← server_location num_servers total_size (key.hash (key_of req))
    rpc.deliver servers (u16 id) req

-- what bind_functions binds, and what the remote calls name, each with the method of its local branch
abbrev pub bindings : List Binding
bindings =
    (codes "Insert", Method.thallium_local_insert)
    ∷ (codes "Find", Method.thallium_local_find)
    ∷ (codes "Erase", Method.thallium_local_erase)
    ∷ (codes "Get", Method.thallium_local_get_value)
    ∷ (codes "Update", Method.thallium_local_update)
    ∷ []

abbrev pub remote_calls : List Binding
remote_calls =
    (codes "Insert", Method.thallium_local_insert)
    ∷ (codes "Find", Method.thallium_local_find)
    ∷ (codes "Erase", Method.thallium_local_erase)
    ∷ (codes "Get", Method.thallium_local_get_value)
    ∷ (codes "Update", Method.thallium_local_update)
    ∷ []
