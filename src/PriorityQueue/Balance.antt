-- ===== src/PriorityQueue/Balance.antt =====
-- Push, Pop, Top and Size of the priority queue, by clients anywhere: what goes in comes out once.
use hcl.Base.{
  ℕ, ◌+◌, ◌≡◌, refl, sym, ◌∙◌, ap, Bool, true, false, List, [], ◌∷◌, Option, some, none, length,
  get_elem?, hits, filter, to_nat, ltb, lt→ltb, if◌then◌else◌, ◌>>=◌, arith, inl, inr, ◌⊎◌,
}
use hcl.Container.{Container, Network}
use hcl.Container.Calls.{call-set}
use hcl.Container.Addressed.{requests_at, answers_at, Aimed, run, Sends, serve_all, run-Served}
use hcl.PriorityQueue.{TopQueue, local_push, local_pop, local_top, local_size, push, pop, top, size}

pub data PriorityCall (V : Type 0) : Type 0 where
  push_call : V → PriorityCall V
  pop_call : PriorityCall V
  top_call : PriorityCall V
  size_call : PriorityCall V

pub data PriorityAnswer (V : Type 0) : Type 0 where
  done : Bool → PriorityAnswer V
  popped : Bool → V → PriorityAnswer V
  seen : Bool → V → PriorityAnswer V
  count : ℕ → PriorityAnswer V

module _ {V : Type 0} where
  unfoldable pub values_pushed : List (PriorityCall V) → List V
  values_pushed [] = []
  values_pushed (push_call v ∷ calls) = v ∷ values_pushed calls
  values_pushed (pop_call ∷ calls) = values_pushed calls
  values_pushed (top_call ∷ calls) = values_pushed calls
  values_pushed (size_call ∷ calls) = values_pushed calls

  unfoldable pub values_popped : List (PriorityAnswer V) → List V
  values_popped [] = []
  values_popped (popped true v ∷ rs) = v ∷ values_popped rs
  values_popped (popped false v ∷ rs) = values_popped rs
  values_popped (seen b v ∷ rs) = values_popped rs
  values_popped (done b ∷ rs) = values_popped rs
  values_popped (count n ∷ rs) = values_popped rs

module _ {V : Type 0} {less : V → V → Bool} (Q : TopQueue less) (net : Network Q.Store)
    (value_default : V) where
  abbrev pub send :
      Container → List Q.Store → ℕ × PriorityCall V → Option (PriorityAnswer V × List Q.Store)
  send c servers (i, push_call v) = do
    (b, servers') ← push Q net c servers v i
    some (done b, servers')
  send c servers (i, pop_call) = do
    ((b, v), servers') ← pop Q net value_default c servers i
    some (popped b v, servers')
  send c servers (i, top_call) = do
    ((b, v), servers') ← top Q net value_default c servers i
    some (seen b v, servers')
  send c servers (i, size_call) = do
    (n, servers') ← size Q net c servers i
    some (count n, servers')

  abbrev popped_one : Q.Store → Option V → PriorityAnswer V × Q.Store
  popped_one s none = (popped false value_default, s)
  popped_one s (some v) = (popped true v, Q.pop s)

  abbrev seen_one : Q.Store → Option V → PriorityAnswer V × Q.Store
  seen_one s none = (seen false value_default, s)
  seen_one s (some v) = (seen true v, s)

  -- the largest element, where there is one
  top_of : Q.Store → Option V
  top_of s = if ltb 0 (length (Q.contents s)) then Q.top s else none

  -- one priority queue by itself
  unfoldable serve : PriorityCall V → Q.Store → PriorityAnswer V × Q.Store
  serve (push_call v) s = (done true, Q.push v s)
  serve pop_call s = popped_one s (top_of s)
  serve top_call s = seen_one s (top_of s)
  serve size_call s = (count (length (Q.contents s)), s)

  -- the two cases of Pop and Top
  top_cases :
      (s : Q.Store)
      → ((ltb 0 (length (Q.contents s)) ≡ false) × (top_of s ≡ none))
        ⊎ ((v : V) × (ltb 0 (length (Q.contents s)) ≡ true)
            × (Q.top s ≡ some v)
            × (top_of s ≡ some v)
            × ((p : V → Bool)
                → hits p (Q.contents s) ≡ to_nat (p v) + hits p (Q.contents (Q.pop s))))
  unfolding top_of
  top_cases s = split (Q.contents s) refl
    where
      split :
          (xs : List V)
          → Q.contents s ≡ xs
          → ((ltb 0 (length (Q.contents s)) ≡ false) × (top_of s ≡ none))
            ⊎ ((v : V) × (ltb 0 (length (Q.contents s)) ≡ true)
                × (Q.top s ≡ some v)
                × (top_of s ≡ some v)
                × ((p : V → Bool)
                    → hits p (Q.contents s) ≡ to_nat (p v) + hits p (Q.contents (Q.pop s))))
      split [] e = inl (rw e refl, rw e refl)
      split (x ∷ xs) e =
          let (v, at, left, largest) = Q.top_some s x xs e in
          let some_left = ap (λ l. ltb 0 (length l)) e ∙ lt→ltb 0 (length (x ∷ xs)) (omega arith) in
          inr (v, some_left, at, rw (some_left, at) refl, left)

  send-Sends : Sends serve send
  unfolding serve push pop top size local_push local_pop local_top local_size
  send-Sends c servers i (push_call v) s at =
      rw
        (call-set c (local_push Q) (net.rpc (local_push Q)) servers i v s (Q.push v s) true at refl)
        refl
  send-Sends c servers i pop_call s at =
      let method = local_pop Q value_default in
      elim (top_cases s) [
        | inl (empty, nothing) ↦
            rw
              (
                call-set c method (net.rpc method) servers i tt s s (false, value_default) at
                    (rw (local_pop, empty) refl),
                nothing,
              )
              refl
        | inr (v, held, first, here, left) ↦
            rw
              (
                call-set c method (net.rpc method) servers i tt s (Q.pop s) (true, v) at
                    (rw (local_pop, held, first) refl),
                here,
              )
              refl
      ]
  send-Sends c servers i top_call s at =
      let method = local_top Q value_default in
      elim (top_cases s) [
        | inl (empty, nothing) ↦
            rw
              (
                call-set c method (net.rpc method) servers i tt s s (false, value_default) at
                    (rw (local_top, empty) refl),
                nothing,
              )
              refl
        | inr (v, held, first, here, left) ↦
            rw
              (
                call-set c method (net.rpc method) servers i tt s s (true, v) at
                    (rw (local_top, held, first) refl),
                here,
              )
              refl
      ]
  send-Sends c servers i size_call s at =
      rw
        (call-set c (local_size Q) (net.rpc (local_size Q)) servers i tt s s (length (Q.contents s))
          at refl)
        refl

  serve_all-balance :
      (p : V → Bool) (calls : List (PriorityCall V)) (s : Q.Store)
      → hits p (Q.contents s) + hits p (values_pushed calls)
        ≡ hits p (values_popped (serve_all serve calls s).0)
          + hits p (Q.contents (serve_all serve calls s).1)
  unfolding serve serve_all values_pushed values_popped filter
  serve_all-balance p [] s = omega arith
  serve_all-balance p (push_call v ∷ calls) s =
      ground (arith, serve_all-balance p calls (Q.push v s), Q.hits-push p v s)
  serve_all-balance p (pop_call ∷ calls) s = elim (top_cases s) [
    | inl (empty, nothing) ↦ rw nothing (serve_all-balance p calls s)
    | inr (v, held, first, here, left) ↦
        rw here (ground (arith, left p, serve_all-balance p calls (Q.pop s)))
  ]
  serve_all-balance p (top_call ∷ calls) s = elim (top_cases s) [
    | inl (empty, nothing) ↦ rw nothing (serve_all-balance p calls s)
    | inr (v, held, first, here, left) ↦ rw here (serve_all-balance p calls s)
  ]
  serve_all-balance p (size_call ∷ calls) s = serve_all-balance p calls s

  -- Any series of Push, Pop, Top and Size calls, each by a client anywhere and for one of the servers,
  -- through a network that runs what the servers have bound, returns; and of each server, what it held
  -- at first together with what was pushed to it is what was popped from it together with what it holds
  -- at the end, no value more or less often.
  pub run-balance :
      (servers : List Q.Store) (calls : List (Container × ℕ × PriorityCall V)) (i : ℕ) (s : Q.Store)
      → Aimed (length servers) calls
      → get_elem? servers i ≡ some s
      → (rs : List (PriorityAnswer V)) × (servers' : List Q.Store) × (run send servers calls
          ≡ some (rs, servers'))
        × (s' : Q.Store) × (get_elem? servers' i ≡ some s')
        × ((p : V → Bool)
            → hits p (Q.contents s) + hits p (values_pushed (requests_at i calls))
              ≡ hits p (values_popped (answers_at i calls rs)) + hits p (Q.contents s'))
  run-balance servers calls i s aimed at =
      let (rs, servers', went, width, effect) =
        run-Served serve send send-Sends servers calls aimed in
      let (held, said) = effect i s at in
      let alone = serve_all serve (requests_at i calls) s in
      (
        rs,
        servers',
        went,
        alone.1,
        held,
        λ p.
            serve_all-balance p (requests_at i calls) s
            ∙ ap (λ out. hits p (values_popped out) + hits p (Q.contents alone.1)) (sym said),
      )
