-- ===== src/MemoryPool/Count.antt =====
-- Taking a node and making a pool, counted node by node.
use hcl.Base.{
  ℕ, zero, suc, ◌+◌, ◌<◌, ◌≡◌, refl, ◌&&◌, List, [], ◌∷◌, ltb, leb, ◌==◌, to_nat, count, count-nil,
  count-cons, arith, append-nil,
}
use hcl.LockfreeQueue.{LockfreeQueue}
use hcl.MemoryPool.{new_memory_pool, pooled, chunk}
use hcl.MemoryPool.Take.{take_node, contents-push_chunk}

count-chunk : (a n i : ℕ) → count a (chunk n i) ≡ to_nat (leb i a && ltb a (i + n))
unfolding chunk
count-chunk a zero i = rw (count-nil a) (ground arith)
count-chunk a (suc n) i = ground (arith, count-cons a i (chunk n (i + 1)), count-chunk a n (i + 1))

-- taking a node from the abstract pool takes one from the waiting nodes or from fresh memory
pub count-take_node :
    (a size next : ℕ) (waiting : List ℕ)
    → 0 < size
    → let r = take_node size next waiting in
      to_nat (a == r.0) + count a r.1 + to_nat (ltb a next) ≡ count a waiting + to_nat (ltb a r.2)
unfolding take_node
count-take_node a zero next [] pos = elim pos [ ]
count-take_node a (suc size) next [] pos =
    ground (arith, count-nil a, count-chunk a size (next + 1))
count-take_node a size next (n ∷ rest) pos = ground (arith, count-cons a n rest)

-- a new pool holds the nodes of its one chunk
pub count-new_memory_pool :
    (Q : LockfreeQueue ℕ) (size a : ℕ)
    → count a (pooled (new_memory_pool Q size)) ≡ to_nat (ltb a size)
unfolding new_memory_pool
count-new_memory_pool Q size a =
    rw (contents-push_chunk Q size 0 Q.empty, Q.contents-empty, append-nil (chunk size 0))
      (ground (arith, count-chunk a size 0))

pub new_memory_pool-fields :
    (Q : LockfreeQueue ℕ) (size : ℕ)
    → ((new_memory_pool Q size).chunk_size ≡ size) × ((new_memory_pool Q size).next_node ≡ size)
unfolding new_memory_pool
new_memory_pool-fields Q size = (refl, refl)
