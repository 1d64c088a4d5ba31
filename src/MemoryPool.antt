-- ===== src/MemoryPool.antt =====
-- include/hcl/base/containers/concurrent_unordered_map/memory_allocation.h: the class memory_pool,
-- the allocator of the concurrent map's nodes, with an active queue to take from and a free queue to
-- return to. A node is named by the number that malloc gave it: the chunks that malloc hands out are
-- numbered on from `next_node`, so no two chunks overlap. A call runs alone. Take says what a call
-- does to the nodes that wait in the two queues, and Count counts them.
pub mod Take
pub mod Count
use hcl.Base.{
  ℕ, zero, suc, ◌+◌, Option, some, none, u64, length, ◌>>=◌, if◌then◌else◌, List, [], ◌∷◌, ◌++◌,
  ◌-◌,
}
use hcl.LockfreeQueue.{LockfreeQueue}

pub record MemoryPool (Q : LockfreeQueue ℕ) : Type 0 where
  pub chunk_size : ℕ
  pub free_nodes : ℕ
  pub num_chunks : ℕ
  pub memory_chunks : Q.Queue
  pub active_queue : Q.Queue
  pub free_queue : Q.Queue
  pub next_node : ℕ

module _ (Q : LockfreeQueue ℕ) where
  -- the loop that pushes each node of a chunk, `n` of them from node `i` on
  pub push_chunk : ℕ → ℕ → Q.Queue → Q.Queue
  push_chunk zero i q = q
  push_chunk (suc n) i q = push_chunk n (i + 1) (Q.push i q).1

  -- `while (free_queue->pop(t)) active_queue->push(t)`; none: the fuel ran out
  pub drain : ℕ → Q.Queue → Q.Queue → Option (Q.Queue × Q.Queue)
  drain zero free active = none
  drain (suc f) free active = elim (Q.pop free) [
    | none ↦ some (free, active)
    | some (t, free') ↦ drain f free' (Q.push t active).1
  ]

  -- the constructor
  pub new_memory_pool : ℕ → MemoryPool Q
  unfolding push_chunk
  new_memory_pool csize = record {
    chunk_size = csize;
    free_nodes = 0;
    num_chunks = 1;
    memory_chunks = (Q.push 0 Q.empty).1;
    active_queue = push_chunk csize 0 Q.empty;
    free_queue = Q.empty;
    next_node = csize;
  }

module _ {Q : LockfreeQueue ℕ} where
  -- the part of a round that asks malloc for one more chunk
  pub grow : Q.Queue → Q.Queue → MemoryPool Q → MemoryPool Q
  unfolding push_chunk
  grow free active p = record p {
    num_chunks = u64 (p.num_chunks + 1);
    active_queue = push_chunk Q p.chunk_size p.next_node active;
    memory_chunks = (Q.push p.next_node p.memory_chunks).1;
    free_queue = free;
    free_nodes = if Q.is_empty free then 0 else p.free_nodes;
    next_node = p.next_node + p.chunk_size;
  }

  -- `while (!active_queue->pop(n)) { ... }` with fuel for its rounds
  pub memory_pool_pop : ℕ → MemoryPool Q → Option (ℕ × MemoryPool Q)
  unfolding drain grow
  memory_pool_pop zero p = none
  memory_pool_pop (suc f) p = elim (Q.pop p.active_queue) [
    | some (n, active) ↦ some (n, record p { active_queue = active })
    | none ↦
        drain Q (suc (length (Q.contents p.free_queue))) p.free_queue p.active_queue
        >>= λ (free, active). elim (Q.pop active) [
          | some (n, active') ↦
              some (n, record p { active_queue = active'; free_queue = free; free_nodes = 0 })
          | none ↦ memory_pool_pop f (grow free active (record p { free_nodes = 0 }))
        ]
  ]

  pub memory_pool_push : ℕ → MemoryPool Q → MemoryPool Q
  memory_pool_push n p = record p {
    free_queue = (Q.push n p.free_queue).1;
    free_nodes = u64 (p.free_nodes + 1);
  }

  -- the nodes that wait in the two queues, in the order in which calls will take them
  abbrev pub pooled : MemoryPool Q → List ℕ
  pooled p = Q.contents p.active_queue ++ Q.contents p.free_queue

-- the nodes of a chunk
unfoldable pub chunk : ℕ → ℕ → List ℕ
chunk zero i = []
chunk (suc n) i = i ∷ chunk n (i + 1)
