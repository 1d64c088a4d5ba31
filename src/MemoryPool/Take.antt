-- ===== src/MemoryPool/Take.antt =====
-- What memory_pool_pop and memory_pool_push do to the waiting nodes.
use hcl.Base.{
  ℕ, zero, suc, ◌+◌, ◌<◌, ◌≡◌, refl, sym, ap, ◌∙◌, some, length, List, [], ◌∷◌, ◌++◌, arith,
  append_assoc, append-nil, subst,
}
use hcl.LockfreeQueue.{LockfreeQueue}
use hcl.MemoryPool.{
  MemoryPool, push_chunk, drain, grow, memory_pool_pop, memory_pool_push, pooled, chunk,
}

module _ (Q : LockfreeQueue ℕ) where
  pub contents-push_chunk :
      (n i : ℕ) (q : Q.Queue) → Q.contents (push_chunk Q n i q) ≡ Q.contents q ++ chunk n i
  unfolding push_chunk chunk
  contents-push_chunk zero i q = sym (append-nil (Q.contents q))
  contents-push_chunk (suc n) i q =
      rw (contents-push_chunk n (i + 1) (Q.push i q).1, Q.contents-push i q)
        (append_assoc (Q.contents q) (i ∷ []) (chunk n (i + 1)))

  -- draining moves every free node behind the active ones, in order
  drain_lem :
      (xs : List ℕ) (free active : Q.Queue)
      → Q.contents free ≡ xs
      → (free' active' : Q.Queue) × (drain Q (suc (length xs)) free active ≡ some (free', active'))
        × (Q.contents free' ≡ [])
        × (Q.contents active' ≡ Q.contents active ++ xs)
  unfolding drain
  drain_lem [] free active e =
      (free, active, rw (Q.pop-nil free e, drain), e, sym (append-nil (Q.contents active)))
  drain_lem (x ∷ xs) free active e =
      let (free', popped, left) = Q.pop-cons free x xs e in
      let (f, a, run, empty, all) = drain_lem xs free' (Q.push x active).1 left in
      (
        f,
        a,
        rw (popped, drain) run,
        empty,
        rw (all, Q.contents-push x active) (append_assoc (Q.contents active) (x ∷ []) xs),
      )

-- The abstract allocator: it hands out the oldest waiting node, or the first of a new chunk.
unfoldable pub take_node : ℕ → ℕ → List ℕ → ℕ × List ℕ × ℕ
take_node size next (n ∷ rest) = (n, rest, next)
take_node zero next [] = (next, [], next)
take_node (suc size) next [] = (next, chunk size (next + 1), next + suc size)

module _ {Q : LockfreeQueue ℕ} where
  -- `p'` is the pool after `r` was taken from the pool `p`
  pub record Took (p p' : MemoryPool Q) (r : ℕ × List ℕ × ℕ) : Type 0 where
    pub waiting : pooled p' ≡ r.1
    pub next : p'.next_node ≡ r.2
    pub size : p'.chunk_size ≡ p.chunk_size

  abbrev Takes : MemoryPool Q → ℕ × List ℕ × ℕ → Type 0
  Takes p r = (p' : MemoryPool Q) × (memory_pool_pop 2 p ≡ some (r.0, p')) × Took p p' r

  take_active :
      (p : MemoryPool Q) (x : ℕ) (xs : List ℕ)
      → Q.contents p.active_queue ≡ x ∷ xs
      → Takes p (x, xs ++ Q.contents p.free_queue, p.next_node)
  unfolding memory_pool_pop
  take_active p x xs e =
      let (active, popped, left) = Q.pop-cons p.active_queue x xs e in
      (
        record p { active_queue = active },
        rw (popped, memory_pool_pop),
        record { waiting = rw left; next = refl; size = refl },
      )

  take_free :
      (p : MemoryPool Q) (y : ℕ) (ys : List ℕ)
      → Q.contents p.active_queue ≡ []
      → Q.contents p.free_queue ≡ y ∷ ys
      → Takes p (y, ys, p.next_node)
  unfolding memory_pool_pop
  take_free p y ys e h =
      let (free, active, run, empty, all) = drain_lem Q (y ∷ ys) p.free_queue p.active_queue h in
      let (active', popped, left) = Q.pop-cons active y ys (all ∙ rw e) in
      (
        record p { active_queue = active'; free_queue = free; free_nodes = 0 },
        rw (Q.pop-nil p.active_queue e, memory_pool_pop, h, run, popped),
        record { waiting = rw (left, empty) (append-nil ys); next = refl; size = refl },
      )

  fresh_active :
      (p : MemoryPool Q) (size : ℕ) (free active : Q.Queue)
      → p.chunk_size ≡ suc size
      → Q.contents active ≡ []
      → Q.contents (grow free active p).active_queue ≡ p.next_node ∷ chunk size (p.next_node + 1)
  unfolding grow chunk
  fresh_active p size free active c e =
      contents-push_chunk Q p.chunk_size p.next_node active ∙ simp (e, c)

  take_fresh :
      (p : MemoryPool Q) (size : ℕ)
      → p.chunk_size ≡ suc size
      → Q.contents p.active_queue ≡ []
      → Q.contents p.free_queue ≡ []
      → Takes p (p.next_node, chunk size (p.next_node + 1), p.next_node + suc size)
  unfolding memory_pool_pop
  take_fresh p size c e h =
      let (free, active, run, empty, all) = drain_lem Q [] p.free_queue p.active_queue h in
      let none_left : Q.contents active ≡ [] = all ∙ rw e in
      let p₁ = record p { free_nodes = 0 } in
      let p₂ = grow free active p₁ in
      let (active', popped, left) =
        Q.pop-cons p₂.active_queue p.next_node (chunk size (p.next_node + 1))
          (fresh_active p₁ size free active c none_left) in
      (
        record p₂ { active_queue = active' },
        rw (
          Q.pop-nil p.active_queue e,
          memory_pool_pop,
          h,
          run,
          Q.pop-nil active none_left,
          popped,
        ),
        record {
          waiting = rw (left, empty) (append-nil _);
          next = omega (arith, ap (λ t. p.next_node + t) c);
          size = refl;
        },
      )

  -- Two rounds of the loop of memory_pool_pop are enough, if chunks are not empty, and the call
  -- hands out the node that the abstract allocator does, which takes the oldest waiting node or
  -- else the first one of a new chunk, and leaves the same nodes waiting.
  pub memory_pool_pop-take_node :
      (p : MemoryPool Q)
      → 0 < p.chunk_size
      → let r = take_node p.chunk_size p.next_node (pooled p) in
        (p' : MemoryPool Q) × (memory_pool_pop 2 p ≡ some (r.0, p')) × Took p p' r
  unfolding take_node
  memory_pool_pop-take_node p pos = split _ _ _ refl refl refl
    where
      split :
          (xs ys : List ℕ) (size : ℕ)
          → Q.contents p.active_queue ≡ xs
          → Q.contents p.free_queue ≡ ys
          → p.chunk_size ≡ size
          → Takes p (take_node p.chunk_size p.next_node (pooled p))
      split (x ∷ xs) ys size e h c = rw e (take_active p x xs e)
      split [] (y ∷ ys) size e h c = rw (e, h) (take_free p y ys e h)
      split [] [] zero e h c = absurd (omega arith)
      split [] [] (suc size) e h c = subst (Takes p) (simp (e, h, c)) (take_fresh p size c e h)

  -- A returned node waits behind all the others.
  pub pooled-memory_pool_push :
      (n : ℕ) (p : MemoryPool Q) → pooled (memory_pool_push n p) ≡ pooled p ++ n ∷ []
  unfolding memory_pool_push
  pooled-memory_pool_push n p =
      rw (Q.contents-push n p.free_queue)
        (sym (append_assoc (Q.contents p.active_queue) (Q.contents p.free_queue) (n ∷ [])))

  pub chunk_size-memory_pool_push :
      (n : ℕ) (p : MemoryPool Q) → (memory_pool_push n p).chunk_size ≡ p.chunk_size
  unfolding memory_pool_push
  chunk_size-memory_pool_push n p = refl

  pub next_node-memory_pool_push :
      (n : ℕ) (p : MemoryPool Q) → (memory_pool_push n p).next_node ≡ p.next_node
  unfolding memory_pool_push
  next_node-memory_pool_push n p = refl
