-- ===== src/Queue.antt =====
-- include/hcl/queue/queue.cpp: the class queue. A server's deque is the list of its elements, the front
-- first; `value_default` is MappedType(). Each caller names the server. Order proves what the calls do
-- to each server, Wait when a wait ends.
pub mod Order
pub mod Wait
use hcl.Container.Names.{Binding, Method, codes}
use hcl.Base.{
  ℕ, Bool, true, false, List, [], ◌∷◌, ◌++◌, Option, some, none, length, if◌then◌else◌, ltb, ◌==◌,
}
use hcl.Container.{Container, Network, call}

module _ {V : Type 0} where
  pub local_push : V → List V → Option (Bool × List V)
  local_push value q = some (true, q ++ (value ∷ []))

  -- `front()` and `pop_front()` of the elements, where there are any
  pub pop_front : V → List V → (Bool × V) × List V
  pop_front value_default [] = ((false, value_default), [])
  pop_front value_default (value ∷ q) = ((true, value), q)

  pub local_pop : V → Unit {0} → List V → Option ((Bool × V) × List V)
  unfolding pop_front
  local_pop value_default _ q =
      if ltb 0 (length q)
      then some (pop_front value_default q)
      else some ((false, value_default), q)

  -- The loop of LocalWaitForElement, which takes no lock: `polls` are the contents of the deque each
  -- time it looks. none: it still waits.
  pub local_wait_for_element : List (List V) → Option Bool
  local_wait_for_element [] = none
  local_wait_for_element (q ∷ polls) =
      let rest = local_wait_for_element polls in if length q == 0 then rest else some true

  pub local_size : Unit {0} → List V → Option (ℕ × List V)
  local_size _ q = some (length q, q)

  module _ (net : Network (List V)) where
    pub push : Container → List (List V) → V → ℕ → Option (Bool × List (List V))
    unfolding local_push
    push c servers value key_int = call c local_push (net.rpc local_push) servers key_int value

    pub pop : V → Container → List (List V) → ℕ → Option ((Bool × V) × List (List V))
    unfolding local_pop
    pop value_default c servers key_int =
        call c (local_pop value_default) (net.rpc (local_pop value_default)) servers key_int tt

    pub size : Container → List (List V) → ℕ → Option (ℕ × List (List V))
    unfolding local_size
    size c servers key_int = call c local_size (net.rpc local_size) servers key_int tt

-- what bind_functions binds, and what the remote calls name, each with the method of its local branch
abbrev pub bindings : List Binding
bindings =
    (codes "Push", Method.thallium_local_push)
    ∷ (codes "Pop", Method.thallium_local_pop)
    ∷ (codes "WaitForElement", Method.thallium_local_wait_for_element)
    ∷ (codes "Size", Method.thallium_local_size)
    ∷ []

abbrev pub remote_calls : List Binding
remote_calls =
    (codes "Push", Method.thallium_local_push)
    ∷ (codes "Pop", Method.thallium_local_pop)
    ∷ (codes "WaitForElement", Method.thallium_local_wait_for_element)
    ∷ (codes "Size", Method.thallium_local_size)
    ∷ []
