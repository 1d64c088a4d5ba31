-- ===== src/ConcurrentQueue.antt =====
-- include/hcl/concurrent/queue/queue.h and queue.cpp: the class concurrent_queue, a lock-free queue on
-- each server. `value_default` is ValueT(). Every call is remote, to the server that the lower 16 bits
-- of the caller's uint64_t name.
pub mod Order
use hcl.Container.Names.{Binding, Method, codes}
use hcl.Base.{[], ◌∷◌, ℕ, Bool, true, false, List, Option, none, some, u16}
use hcl.Container.{Network}
use hcl.LockfreeQueue.{LockfreeQueue}

module _ {V : Type 0} (Q : LockfreeQueue V) where
  pub local_push : V → Q.Queue → Option (Bool × Q.Queue)
  local_push v q = some (Q.push v q)

  pub local_pop : V → Unit {0} → Q.Queue → Option ((Bool × V) × Q.Queue)
  local_pop value_default _ q = elim (Q.pop q) [
    | none ↦ some ((false, value_default), q)
    | some (v, q') ↦ some ((true, v), q')
  ]

  module _ (net : Network Q.Queue) where
    pub push : List Q.Queue → ℕ → V → Option (Bool × List Q.Queue)
    unfolding local_push
    push servers s v = let key_int = u16 s in (net.rpc local_push).deliver servers key_int v

    pub pop : V → List Q.Queue → ℕ → Option ((Bool × V) × List Q.Queue)
    unfolding local_pop
    pop value_default servers s =
        let key_int = u16 s in (net.rpc (local_pop value_default)).deliver servers key_int tt

-- what bind_functions binds, and what the remote calls name, each with the method of its local branch
abbrev pub bindings : List Binding
bindings =
    (codes "Push", Method.thallium_local_push) ∷ (codes "Pop", Method.thallium_local_pop) ∷ []

abbrev pub remote_calls : List Binding
remote_calls =
    (codes "Push", Method.thallium_local_push) ∷ (codes "Pop", Method.thallium_local_pop) ∷ []
