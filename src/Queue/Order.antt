-- ===== src/Queue/Order.antt =====
-- Push, Pop and Size of the queue, by clients anywhere: each server answers first in, first out.
use hcl.Base.{
  ℕ, ◌≡◌, refl, sym, ◌∙◌, ap, Bool, true, false, List, [], ◌∷◌, ◌++◌, append_assoc, append-nil,
  Option, some, length, get_elem?, ◌>>=◌, arith,
}
use hcl.Container.{Container, Network}
use hcl.Container.Calls.{call-set}
use hcl.Container.Addressed.{requests_at, answers_at, Aimed, run, Sends, serve_all, run-Served}
use hcl.Queue.{local_push, local_pop, local_size, pop_front, push, pop, size}

pub data QueueCall (V : Type 0) : Type 0 where
  push_call : V → QueueCall V
  pop_call : QueueCall V
  size_call : QueueCall V

pub data QueueAnswer (V : Type 0) : Type 0 where
  done : Bool → QueueAnswer V
  front : Bool → V → QueueAnswer V
  count : ℕ → QueueAnswer V

module _ {V : Type 0} (net : Network (List V)) (value_default : V) where
  abbrev pub send :
      Container → List (List V) → ℕ × QueueCall V → Option (QueueAnswer V × List (List V))
  send c servers (i, push_call value) = do
    (b, servers') ← push net c servers value i
    some (done b, servers')
  send c servers (i, pop_call) = do
    ((b, value), servers') ← pop net value_default c servers i
    some (front b value, servers')
  send c servers (i, size_call) = do (n, servers') ← size net c servers i; some (count n, servers')

module _ {V : Type 0} where
  -- the elements that a series of calls has pushed, and those that its answers hand out
  unfoldable pub pushed : List (QueueCall V) → List V
  pushed [] = []
  pushed (push_call value ∷ calls) = value ∷ pushed calls
  pushed (pop_call ∷ calls) = pushed calls
  pushed (size_call ∷ calls) = pushed calls

  unfoldable pub popped : List (QueueAnswer V) → List V
  popped [] = []
  popped (front true value ∷ rs) = value ∷ popped rs
  popped (front false value ∷ rs) = popped rs
  popped (done b ∷ rs) = popped rs
  popped (count n ∷ rs) = popped rs

  -- one deque by itself
  unfoldable pub serve : V → QueueCall V → List V → QueueAnswer V × List V
  serve value_default (push_call value) q = (done true, q ++ (value ∷ []))
  serve value_default pop_call [] = (front false value_default, [])
  serve value_default pop_call (value ∷ q) = (front true value, q)
  serve value_default size_call q = (count (length q), q)

  serve_all-fifo :
      (value_default : V) (calls : List (QueueCall V)) (q : List V)
      → q ++ pushed calls
        ≡ popped (serve_all (serve value_default) calls q).0
          ++ (serve_all (serve value_default) calls q).1
  unfolding pushed popped serve serve_all
  serve_all-fifo value_default [] q = append-nil q
  serve_all-fifo value_default (push_call value ∷ calls) q =
      sym (append_assoc q (value ∷ []) (pushed calls))
      ∙ serve_all-fifo value_default calls (q ++ (value ∷ []))
  serve_all-fifo value_default (pop_call ∷ calls) [] = serve_all-fifo value_default calls []
  serve_all-fifo value_default (pop_call ∷ calls) (value ∷ q) =
      ap (◌∷◌ value) (serve_all-fifo value_default calls q)
  serve_all-fifo value_default (size_call ∷ calls) q = serve_all-fifo value_default calls q

module _ {V : Type 0} (net : Network (List V)) (value_default : V) where
  send-Sends : Sends (serve value_default) (send net value_default)
  unfolding serve push pop size local_push local_pop local_size pop_front
  send-Sends c servers i (push_call value) s at =
      rw
        (call-set c local_push (net.rpc local_push) servers i value s (s ++ (value ∷ [])) true at
          refl)
        refl
  send-Sends c servers i pop_call [] at =
      rw
        (call-set c (local_pop value_default) (net.rpc (local_pop value_default)) servers i tt [] []
          (false, value_default) at refl)
        refl
  send-Sends c servers i pop_call (value ∷ q) at =
      rw
        (call-set c (local_pop value_default) (net.rpc (local_pop value_default)) servers i tt
          (value ∷ q) q (true, value) at (ground arith))
        refl
  send-Sends c servers i size_call s at =
      rw (call-set c local_size (net.rpc local_size) servers i tt s s (length s) at refl) refl

  -- Any series of Push, Pop and Size calls, each by a client anywhere and for one of the servers, through
  -- a network that runs what the servers have bound, returns; and of each server, what it held at first
  -- and then what was pushed to it, in order, is what was popped from it, in order, and then what it
  -- holds at the end.
  pub run-fifo :
      (servers : List (List V)) (calls : List (Container × ℕ × QueueCall V)) (i : ℕ) (q : List V)
      → Aimed (length servers) calls
      → get_elem? servers i ≡ some q
      → (rs : List (QueueAnswer V)) × (servers' : List (List V)) × (run
            (send net value_default)
            servers
            calls
          ≡ some (rs, servers'))
        × (q' : List V) × (get_elem? servers' i ≡ some q')
        × (q ++ pushed (requests_at i calls) ≡ popped (answers_at i calls rs) ++ q')
  run-fifo servers calls i q aimed at =
      let (rs, servers', went, width, effect) =
        run-Served (serve value_default) (send net value_default) send-Sends servers calls aimed in
      let (held, said) = effect i q at in
      let alone = serve_all (serve value_default) (requests_at i calls) q in
      (
        rs,
        servers',
        went,
        alone.1,
        held,
        serve_all-fifo value_default (requests_at i calls) q
            ∙ ap (λ out. popped out ++ alone.1) (sym said),
      )
