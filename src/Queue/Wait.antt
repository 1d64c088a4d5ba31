-- ===== src/Queue/Wait.antt =====
-- LocalWaitForElement beside other processes, which push and pop between its looks at the deque. An element
-- that is pushed and taken between two looks is missed.
use hcl.Base.{
  ℕ, suc, ◌+◌, ◌-◌, ◌≡◌, ◌<◌, refl, Bool, true, false, List, [], ◌∷◌, ◌++◌, Option, some, none,
  length, length-append, ltb, arith, ◌==◌, if◌then◌else◌, ◌>>=◌,
}
use hcl.Queue.{local_push, local_pop, pop_front, local_wait_for_element}

-- what happens while a process waits: it looks, or another process calls a method
pub data WaitEvent (V : Type 0) : Type 0 where
  look : WaitEvent V
  pushes : V → WaitEvent V
  pops : WaitEvent V

module _ {V : Type 0} where
  -- how many calls of LocalPush, and of LocalPop, there are
  unfoldable pub push_count : List (WaitEvent V) → ℕ
  push_count [] = 0
  push_count (look ∷ es) = push_count es
  push_count (pushes value ∷ es) = suc (push_count es)
  push_count (pops ∷ es) = push_count es

  unfoldable pub pop_count : List (WaitEvent V) → ℕ
  pop_count [] = 0
  pop_count (look ∷ es) = pop_count es
  pop_count (pushes value ∷ es) = pop_count es
  pop_count (pops ∷ es) = suc (pop_count es)

  -- whether a look meets an element, told from the number of elements alone
  unfoldable pub meets : ℕ → List (WaitEvent V) → Bool
  meets n [] = false
  meets n (look ∷ es) = let rest = meets n es in if n == 0 then rest else true
  meets n (pushes value ∷ es) = meets (n + 1) es
  meets n (pops ∷ es) = meets (n - 1) es

  -- a look comes after fewer pops than pushes and elements that were there
  meets-more :
      (before after : List (WaitEvent V)) (n : ℕ)
      → pop_count before < n + push_count before
      → meets n (before ++ (look ∷ after)) ≡ true
  unfolding meets push_count pop_count
  meets-more [] after n more = ground arith
  meets-more (look ∷ before) after n more = ground (arith, meets-more before after n more)
  meets-more (pushes value ∷ before) after n more = meets-more before after (n + 1) (omega arith)
  meets-more (pops ∷ before) after n more = meets-more before after (n - 1) (omega arith)

  module _ (value_default : V) where
    -- the contents of the deque at the looks of LocalWaitForElement
    unfoldable pub looks : List (WaitEvent V) → List V → Option (List (List V))
    looks [] q = some []
    looks (look ∷ es) q = looks es q >>= λ seen. some (q ∷ seen)
    looks (pushes value ∷ es) q = local_push value q >>= λ (b, q'). looks es q'
    looks (pops ∷ es) q = local_pop value_default tt q >>= λ (r, q'). looks es q'

    -- the events all happen, and the wait ends as `ended` tells
    abbrev pub Waits : List (WaitEvent V) → List V → Bool → Type 0
    Waits es q ended =
        (seen : List (List V)) × (looks es q ≡ some seen)
        × (local_wait_for_element seen ≡ (if ended then some true else none))

    waits : (es : List (WaitEvent V)) (q : List V) → Waits es q (meets (length q) es)
    unfolding looks meets local_push local_pop pop_front local_wait_for_element
    waits [] q = ([], refl, refl)
    waits (look ∷ es) [] = let (seen, run, told) = waits es [] in ([] ∷ seen, rw run refl, told)
    waits (look ∷ es) (x ∷ q) =
        let (seen, run, told) = waits es (x ∷ q) in ((x ∷ q) ∷ seen, rw run refl, ground arith)
    waits (pushes value ∷ es) q =
        let (seen, run, told) = waits es (q ++ (value ∷ [])) in
        let longer : length (q ++ (value ∷ [])) ≡ length q + 1 = length-append q (value ∷ []) in
        (seen, run, rw longer at told)
    waits (pops ∷ es) [] = waits es []
    waits (pops ∷ es) (x ∷ q) =
        let (seen, run, told) = waits es q in
        let held : ltb 0 (suc (length q)) ≡ true = ground arith in
        let one : suc (length q) - 1 ≡ length q = omega arith in (seen, rw held run, rw one told)

    -- While other processes call LocalPush and LocalPop, in any order with the looks of
    -- LocalWaitForElement, all their calls return, and the wait returns true just if the number of
    -- elements is not 0 at one of its looks, where a push adds one and a pop takes one, if there is
    -- one; an element that is pushed and taken between two looks is missed. So it returns true if
    -- the calls before one of its looks have fewer pops than pushes and elements that were there at
    -- first.
    pub wait-meets :
        (es before after : List (WaitEvent V)) (q : List V)
        → pop_count before < length q + push_count before
        → Waits es q (meets (length q) es) × Waits (before ++ (look ∷ after)) q true
    wait-meets es before after q more = (
      waits es q,
      rw (meets-more before after (length q) more) at (waits (before ++ (look ∷ after)) q),
    )
