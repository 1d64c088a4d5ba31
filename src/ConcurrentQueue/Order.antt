-- ===== src/ConcurrentQueue/Order.antt =====
-- Push and Pop of the concurrent queue: each server answers first in, first out.
use hcl.Base.{
  ℕ, ◌≡◌, refl, sym, ◌∙◌, ap, Bool, true, false, List, [], ◌∷◌, ◌++◌, append_assoc, append-nil,
  Option, some, none, length, get_elem?, get_elem?-lt, set, ◌>>=◌, u16, Option-cases, inl, inr,
}
use hcl.Container.{Container, Network}
use hcl.Container.Calls.{run_at-set}
use hcl.Container.Addressed.{requests_at, answers_at, Aimed, run, Sends, serve_all, run-Served}
use hcl.LockfreeQueue.{LockfreeQueue}
use hcl.ConcurrentQueue.{local_push, local_pop, push, pop}

pub data ConcurrentCall (V : Type 0) : Type 0 where
  push_call : V → ConcurrentCall V
  pop_call : ConcurrentCall V

pub data ConcurrentAnswer (V : Type 0) : Type 0 where
  done : Bool → ConcurrentAnswer V
  front : Bool → V → ConcurrentAnswer V

module _ {V : Type 0} where
  unfoldable pub pushed : List (ConcurrentCall V) → List V
  pushed [] = []
  pushed (push_call v ∷ calls) = v ∷ pushed calls
  pushed (pop_call ∷ calls) = pushed calls

  unfoldable pub popped : List (ConcurrentAnswer V) → List V
  popped [] = []
  popped (front true v ∷ rs) = v ∷ popped rs
  popped (front false v ∷ rs) = popped rs
  popped (done b ∷ rs) = popped rs

  -- the calls with the number of the server that each reaches
  unfoldable pub aim :
      List (Container × ℕ × ConcurrentCall V) → List (Container × ℕ × ConcurrentCall V)
  aim [] = []
  aim ((c, s, call) ∷ calls) = (c, u16 s, call) ∷ aim calls

module _ {V : Type 0} (Q : LockfreeQueue V) (net : Network Q.Queue) (value_default : V) where
  abbrev pub send :
      Container → List Q.Queue → ℕ × ConcurrentCall V → Option (ConcurrentAnswer V × List Q.Queue)
  send c servers (s, push_call v) = do
    (b, servers') ← push Q net servers s v
    some (done b, servers')
  send c servers (s, pop_call) = do
    ((b, v), servers') ← pop Q net value_default servers s
    some (front b v, servers')

  -- the same calls, each with the number of the server that it reaches
  abbrev reach :
      Container → List Q.Queue → ℕ × ConcurrentCall V → Option (ConcurrentAnswer V × List Q.Queue)
  reach c servers (i, push_call v) = do
    (b, servers') ← (net.rpc (local_push Q)).deliver servers i v
    some (done b, servers')
  reach c servers (i, pop_call) = do
    ((b, v), servers') ← (net.rpc (local_pop Q value_default)).deliver servers i tt
    some (front b v, servers')

  run-aim :
      (servers : List Q.Queue) (calls : List (Container × ℕ × ConcurrentCall V))
      → run send servers calls ≡ run reach servers (aim calls)
  unfolding run aim push pop
  run-aim servers [] = refl
  run-aim servers ((c, s, push_call v) ∷ calls) =
      elim (Option-cases ((net.rpc (local_push Q)).deliver servers (u16 s) v)) [
        | inl e ↦ rw e refl
        | inr ((b, servers'), e) ↦ rw (e, run-aim servers' calls) refl
      ]
  run-aim servers ((c, s, pop_call) ∷ calls) =
      elim (Option-cases ((net.rpc (local_pop Q value_default)).deliver servers (u16 s) tt)) [
        | inl e ↦ rw e refl
        | inr ((r, servers'), e) ↦ rw (e, run-aim servers' calls) refl
      ]

  -- one queue by itself
  abbrev pub popped_one : Q.Queue → Option (V × Q.Queue) → ConcurrentAnswer V × Q.Queue
  popped_one q none = (front false value_default, q)
  popped_one q (some (v, q')) = (front true v, q')

  unfoldable pub serve : ConcurrentCall V → Q.Queue → ConcurrentAnswer V × Q.Queue
  serve (push_call v) q = let (b, q') = Q.push v q in (done b, q')
  serve pop_call q = popped_one q (Q.pop q)

  deliver-set :
      {Req Res : Type 0} (bound : Req → Q.Queue → Option (Res × Q.Queue)) (servers : List Q.Queue)
      (i : ℕ) (req : Req) (s s' : Q.Queue) (res : Res)
      → get_elem? servers i ≡ some s
      → bound req s ≡ some (res, s')
      → (net.rpc bound).deliver servers i req ≡ some (res, set servers i s')
  deliver-set bound servers i req s s' res at h =
      (net.rpc bound).deliver-run_at servers i req (get_elem?-lt servers i s at)
      ∙ run_at-set bound servers i req s s' res at h

  reach-Sends : Sends serve reach
  unfolding serve local_push local_pop
  reach-Sends c servers i (push_call v) q at =
      rw (deliver-set (local_push Q) servers i v q (Q.push v q).1 (Q.push v q).0 at refl) refl
  reach-Sends c servers i pop_call q at = elim (Option-cases (Q.pop q)) [
    | inl e ↦
        rw
          (
            deliver-set (local_pop Q value_default) servers i tt q q (false, value_default) at
                (rw (local_pop, e) refl),
            e,
          )
          refl
    | inr ((v, q'), e) ↦
        rw
          (
            deliver-set (local_pop Q value_default) servers i tt q q' (true, v) at
                (rw (local_pop, e) refl),
            e,
          )
          refl
  ]

  serve_all-fifo :
      (calls : List (ConcurrentCall V)) (q : Q.Queue)
      → Q.contents q ++ pushed calls
        ≡ popped (serve_all serve calls q).0 ++ Q.contents (serve_all serve calls q).1
  unfolding pushed popped serve serve_all
  serve_all-fifo [] q = append-nil (Q.contents q)
  serve_all-fifo (push_call v ∷ calls) q =
      sym (append_assoc (Q.contents q) (v ∷ []) (pushed calls))
      ∙ ap (λ l. l ++ pushed calls) (sym (Q.contents-push v q))
      ∙ serve_all-fifo calls (Q.push v q).1
  serve_all-fifo (pop_call ∷ calls) q =
      pop_first (λ q'. serve_all-fifo calls q') (Q.contents q) refl
    where
      pop_first :
          ((q' : Q.Queue)
            → Q.contents q' ++ pushed calls
              ≡ popped (serve_all serve calls q').0 ++ Q.contents (serve_all serve calls q').1)
          → (l : List V) → Q.contents q ≡ l
          → Q.contents q ++ pushed calls
            ≡ popped (serve_all serve (pop_call ∷ calls) q).0
              ++ Q.contents (serve_all serve (pop_call ∷ calls) q).1
      pop_first go [] e = rw (Q.pop-nil q e) (go q)
      pop_first go (v ∷ l) e =
          let (q', now, rest) = Q.pop-cons q v l e in
          rw (now, e) (ap (λ l'. v ∷ (l' ++ pushed calls)) (sym rest) ∙ ap (◌∷◌ v) (go q'))

  -- Any series of Push and Pop calls, each for a number whose lower 16 bits name one of the servers,
  -- through a network that runs what the servers have bound, returns; and of each server, what it held
  -- at first and then what was pushed to it, in order, is what was popped from it, in order, and then
  -- what it holds at the end.
  pub run-first_out :
      (servers : List Q.Queue) (calls : List (Container × ℕ × ConcurrentCall V)) (i : ℕ)
      (q : Q.Queue)
      → Aimed (length servers) (aim calls)
      → get_elem? servers i ≡ some q
      → (rs : List (ConcurrentAnswer V)) × (servers' : List Q.Queue) × (run send servers calls
          ≡ some (rs, servers'))
        × (q' : Q.Queue) × (get_elem? servers' i ≡ some q')
        × (Q.contents q ++ pushed (requests_at i (aim calls))
            ≡ popped (answers_at i (aim calls) rs) ++ Q.contents q')
  run-first_out servers calls i q aimed at =
      let (rs, servers', went, width, effect) =
        run-Served serve reach reach-Sends servers (aim calls) aimed in
      let (held, said) = effect i q at in
      let alone = serve_all serve (requests_at i (aim calls)) q in
      (
        rs,
        servers',
        run-aim servers calls ∙ went,
        alone.1,
        held,
        serve_all-fifo (requests_at i (aim calls)) q
            ∙ ap (λ out. popped out ++ Q.contents alone.1) (sym said),
      )
