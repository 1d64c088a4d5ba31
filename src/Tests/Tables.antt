-- ===== src/Tests/Tables.antt =====
-- The pool, the table, the ranges and the concurrent map at concrete inputs: integer keys under the
-- identity hash, with lists for the lock-free queues.
use hcl.Base.{
  ℕ, div?, mod?, u64, zero, suc, subst, get_elem?, ◌≡◌, refl, ◌<◌, ◌+◌, true, false, ◌&&◌, not,
  List, [], ◌∷◌, some, none, is_some, ltb, ◌==◌, to_nat, count, arith, ◌>>=◌, if◌then◌else◌,
}
use hcl.LockfreeQueue.{LockfreeQueue, list_queue}
use hcl.HashKey.{◌≈◌, int_key}
use hcl.MemoryPool.{MemoryPool, memory_pool_pop, new_memory_pool, chunk, pooled}
use hcl.MemoryPool.Take.{take_node, Took, memory_pool_pop-take_node}
use hcl.Partition.{Range, initialize_tables, is_local, server_location}
use hcl.Partition.Owner.{server_location-is_local}
use hcl.Partition.Setup.{initialize_tables-tiles}
use mathlib.Core.Option.{some-injective}
use hcl.BlockMap.Chain.{IsChain, value_of}
use hcl.BlockMap.{
  Fnode, BlockMap, insert, get, erase, new_block_map, exists, inserted, count_block_entries,
}
use hcl.BlockMap.View.{IsValid, view}
use hcl.BlockMap.Effects.{insert-view, erase-view, get-view, get_misses}
use hcl.BlockMap.Counters.{stored}
use hcl.BlockMap.History.{changes, inserts, updates, erases, changes-once}
use hcl.BlockMap.Nodes.{placed}
use hcl.Container.{direct}
use hcl.ConcurrentMap.{
  ConcurrentMap, Request, insert_req, find_req, erase_req, get_req, update_req, serve, initialize,
  table_data, allocated, removed,
}
use hcl.ConcurrentMap.Census.{serve_all, serve_all-allocated}
use hcl.ConcurrentMap.Cluster.{remote_all, answers, Unreserved}
use hcl.ConcurrentMap.Start.{start, start-answers}

abbrev queue : LockfreeQueue ℕ
queue = list_queue ℕ

abbrev small_pool : MemoryPool queue
small_pool = record {
  chunk_size = 2;
  free_nodes = 0;
  num_chunks = 1;
  memory_chunks = 0 ∷ [];
  active_queue = [];
  free_queue = [];
  next_node = 2;
}

memory_pool_pop-take_node_example :
    (p' : MemoryPool queue) × (memory_pool_pop 2 small_pool ≡ some (2, p'))
    × Took small_pool p' (2, 3 ∷ [], 4)
unfolding take_node chunk
memory_pool_pop-take_node_example = memory_pool_pop-take_node small_pool (omega arith)

server_location-is_local_example :
    (id : ℕ) × (server_location 3 10 25 ≡ some id)
    × (id < 3)
    × (is_local true
          (record {
            total_size = 10;
            max_size = 3;
            min_range = 4;
            max_range = 7;
            nservers = 3;
            serverid = 1;
          })
          25
        ≡ some (true && (id == 1)))
unfolding initialize_tables div? mod? u64
server_location-is_local_example =
    server_location-is_local 10 3 25 1 true
      (record {
        total_size = 10;
        max_size = 3;
        min_range = 4;
        max_range = 7;
        nservers = 3;
        serverid = 1;
      })
      (omega arith) refl

initialize_tables-tiles_example :
    (r : Range) × (initialize_tables 10 3 2 ≡ some r)
    × (◌≡◌ {A = ℕ} 2 0 → r.min_range ≡ 0)
    × ((s : Range)
        → 2 + 1 < 3
        → initialize_tables 10 3 (2 + 1) ≡ some s
        → s.min_range ≡ r.max_range)
    × (◌≡◌ {A = ℕ} (2 + 1) 3 → r.max_range ≡ 10)
initialize_tables-tiles_example =
    initialize_tables-tiles 10 3 2 (omega arith) (omega arith) (omega arith) (omega arith)

changes-once_example :
    (m : BlockMap queue ℕ ℕ) × ((new_block_map 2 (new_memory_pool queue 3) 0 99
        >>= changes (inserts 4 40 ∷ inserts 6 60 ∷ erases 4 ∷ updates 6 61 ∷ []))
      ≡ some m)
    × ((a : ℕ) → count a (pooled m.pl) + count a (placed m.table) ≡ to_nat (ltb a m.pl.next_node))
changes-once_example =
    changes-once 2 3 0 99 (inserts 4 40 ∷ inserts 6 60 ∷ erases 4 ∷ updates 6 61 ∷ []) (omega arith)
      (omega arith) (omega arith)

-- a table of one bucket with the keys 5 and 7 in it, and the largest key 6
abbrev two_keys : BlockMap queue ℕ ℕ
two_keys = record {
  table =
      record {
        num_nodes = 2;
        head = record { node_id = 0; key = 6; value = 0 };
        nodes =
            record { node_id = 1; key = 5; value = 50 }
            ∷ record { node_id = 2; key = 7; value = 70 }
            ∷ [];
      }
      ∷ [];
  max_size = 1;
  allocated = 2;
  removed = 0;
  pl = record small_pool { active_queue = 3 ∷ []; next_node = 4 };
  empty_key = 6;
}

IsChain-at :
    (i : ℕ) (b : Fnode ℕ ℕ)
    → get_elem? two_keys.table i ≡ some b
    → IsChain b.nodes × (b.head.key ≡ 6)
unfolding value_of
IsChain-at zero b e =
    subst (λ (c : Fnode ℕ ℕ). IsChain c.nodes × (c.head.key ≡ 6)) (some-injective _ _ e)
      (((omega arith, tt), refl, (tt, refl, tt)), refl)
IsChain-at (suc i) b e = absurd (cc)

two_keys-IsValid : IsValid two_keys
two_keys-IsValid = record {
  size_pos = omega arith;
  size_max = omega arith;
  width = refl;
  chains = λ i b e. (IsChain-at i b e).0;
  heads = λ i b e. (IsChain-at i b e).1;
  chunks = omega arith;
}

insert-view_example :
    (m' : BlockMap queue ℕ ℕ) × (insert two_keys 8 80
      ≡ some (if is_some (view two_keys 8) then exists else inserted, m'))
    × IsValid m'
    × ((q : ℕ)
        → view m' q
          ≡ (if (8 ≈ q) && not (is_some (view two_keys 8)) then some 80 else view two_keys q))
    × (m'.empty_key ≡ 6)
insert-view_example = insert-view two_keys-IsValid 8 80

erase-view_example :
    (m' : BlockMap queue ℕ ℕ) × (erase two_keys 5 ≡ some (is_some (view two_keys 5), m'))
    × IsValid m'
    × ((q : ℕ) → view m' q ≡ (if 5 ≈ q then none else view two_keys q))
    × (m'.empty_key ≡ 6)
erase-view_example = erase-view two_keys-IsValid 5

get-view_example :
    get two_keys 7 9 ≡ some (elim (view two_keys 7) [ none ↦ (false, 9) | some w ↦ (true, w) ])
get-view_example = get-view two_keys-IsValid 7 9 (omega arith) refl

get_misses_example : get two_keys 5 9 ≡ some (false, 9)
get_misses_example = get_misses two_keys-IsValid 5 9 (omega arith)

abbrev requests : List (Request ℕ ℕ)
requests =
    insert_req 12 120
    ∷ find_req 12
    ∷ get_req 12
    ∷ update_req 12 121
    ∷ erase_req 12
    ∷ find_req 12
    ∷ insert_req 5 50
    ∷ find_req 5
    ∷ get_req 5
    ∷ []

requests-Unreserved : Unreserved 9 requests
unfolding Unreserved
requests-Unreserved = (refl, (refl, (refl, (refl, (refl, (refl, (refl, (refl, (refl, tt)))))))))

start-answers_example :
    (start {Q = queue} 3 0 8 3 0 9 >>= λ servers.
    remote_all 0 3 8 (direct (serve 0)) servers requests)
    ≡ some (answers 0 9 requests (λ _. none))
start-answers_example =
    start-answers 8 3 0 9 (direct (serve 0)) requests (omega arith) (omega arith) (omega arith)
      (omega arith) requests-Unreserved

serve_all-allocated_example :
    (s : ConcurrentMap queue ℕ ℕ) × (t : BlockMap queue ℕ ℕ) × (a r : ℕ) × ((initialize true 10 3 1
          0 99
        >>= serve_all 0 (insert_req 4 40 ∷ insert_req 99 1 ∷ erase_req 4 ∷ get_req 4 ∷ []))
      ≡ some s)
    × (table_data s ≡ some t)
    × (count_block_entries 0 t.table ≡ u64 (stored t.table))
    × (allocated s ≡ some a)
    × (removed s ≡ some r)
    × (u64 (count_block_entries 0 t.table + r) ≡ a)
serve_all-allocated_example =
    serve_all-allocated 10 3 1 0 99
      (insert_req 4 40 ∷ insert_req 99 1 ∷ erase_req 4 ∷ get_req 4 ∷ []) (omega arith) (omega arith)
      (omega arith) (omega arith)
