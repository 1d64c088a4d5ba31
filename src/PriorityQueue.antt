-- ===== src/PriorityQueue.antt =====
-- include/hcl/priority_queue/priority_queue.cpp: the class priority_queue. The std::priority_queue in a
-- server's segment comes with what its documentation says; `less` is Compare, and `value_default` is
-- MappedType(). Each caller names the server. Balance has what goes in and comes out, Drain in which
-- order.
pub mod Balance
pub mod Drain
use hcl.Container.Names.{Binding, Method, codes}
use hcl.Base.{
  ℕ, ◌+◌, ◌≡◌, Bool, true, false, List, [], ◌∷◌, Option, some, none, length, hits, to_nat, ltb,
  if◌then◌else◌, ◌>>=◌,
}
use hcl.Container.{Container, Network, call}

-- `contents` lists the elements in any order; `hits p` counts those of a list that pass the test `p`
pub record TopQueue {V : Type 0} (less : V → V → Bool) : Type 1 where
  pub Store : Type 0
  pub empty : Store
  pub contents : Store → List V
  pub push : V → Store → Store
  pub top : Store → Option V
  pub pop : Store → Store
  pub contents-empty : contents empty ≡ []
  pub hits-push :
      (p : V → Bool) (v : V) (s : Store)
      → hits p (contents (push v s)) ≡ to_nat (p v) + hits p (contents s)
  pub top_some :
      (s : Store) (x : V) (xs : List V)
      → contents s ≡ x ∷ xs
      → (v : V) × (top s ≡ some v)
        × ((p : V → Bool) → hits p (contents s) ≡ to_nat (p v) + hits p (contents (pop s)))
        × (hits (less v) (contents s) ≡ 0)

module _ {V : Type 0} {less : V → V → Bool} (Q : TopQueue less) where
  pub local_push : V → Q.Store → Option (Bool × Q.Store)
  local_push value s = some (true, Q.push value s)

  -- none: the top of an empty queue is read
  pub local_pop : V → Unit {0} → Q.Store → Option ((Bool × V) × Q.Store)
  local_pop value_default _ s =
      if ltb 0 (length (Q.contents s))
      then (Q.top s >>= λ value. some ((true, value), Q.pop s))
      else some ((false, value_default), s)

  pub local_top : V → Unit {0} → Q.Store → Option ((Bool × V) × Q.Store)
  local_top value_default _ s =
      if ltb 0 (length (Q.contents s))
      then (Q.top s >>= λ value. some ((true, value), s))
      else some ((false, value_default), s)

  pub local_size : Unit {0} → Q.Store → Option (ℕ × Q.Store)
  local_size _ s = some (length (Q.contents s), s)

  module _ (net : Network Q.Store) where
    pub push : Container → List Q.Store → V → ℕ → Option (Bool × List Q.Store)
    unfolding local_push
    push c servers value key_int = call c local_push (net.rpc local_push) servers key_int value

    pub pop : V → Container → List Q.Store → ℕ → Option ((Bool × V) × List Q.Store)
    unfolding local_pop
    pop value_default c servers key_int =
        call c (local_pop value_default) (net.rpc (local_pop value_default)) servers key_int tt

    pub top : V → Container → List Q.Store → ℕ → Option ((Bool × V) × List Q.Store)
    unfolding local_top
    top value_default c servers key_int =
        call c (local_top value_default) (net.rpc (local_top value_default)) servers key_int tt

    pub size : Container → List Q.Store → ℕ → Option (ℕ × List Q.Store)
    unfolding local_size
    size c servers key_int = call c local_size (net.rpc local_size) servers key_int tt

-- what bind_functions binds, and what the remote calls name, each with the method of its local branch
abbrev pub bindings : List Binding
bindings =
    (codes "Push", Method.thallium_local_push)
    ∷ (codes "Pop", Method.thallium_local_pop)
    ∷ (codes "Top", Method.thallium_local_top)
    ∷ (codes "Size", Method.thallium_local_size)
    ∷ []

abbrev pub remote_calls : List Binding
remote_calls =
    (codes "Push", Method.thallium_local_push)
    ∷ (codes "Pop", Method.thallium_local_pop)
    ∷ (codes "Top", Method.thallium_local_top)
    ∷ (codes "Size", Method.thallium_local_size)
    ∷ []
