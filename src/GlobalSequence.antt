-- ===== src/GlobalSequence.antt =====
-- include/hcl/sequencer/global_sequence.h: the class global_sequence, a counter on each server. A
-- server's state is `*value`, a uint64_t that construct_shared_memory sets to 0.
pub mod Order
use hcl.Container.Names.{Binding, Method, codes}
use hcl.Base.{[], ◌∷◌, ℕ, ◌+◌, List, Option, some, u64}
use hcl.Container.{Container, Network, call, in_server}

pub local_get_next_sequence : Unit {0} → ℕ → Option (ℕ × ℕ)
local_get_next_sequence _ value = let next = u64 (value + 1) in some (next, next)

module _ (net : Network ℕ) where
  pub get_next_sequence : Container → List ℕ → Option (ℕ × List ℕ)
  unfolding local_get_next_sequence
  get_next_sequence c servers =
      in_server c local_get_next_sequence (net.rpc local_get_next_sequence) servers tt

  pub get_next_sequence_server : Container → List ℕ → ℕ → Option (ℕ × List ℕ)
  unfolding local_get_next_sequence
  get_next_sequence_server c servers server =
      call c local_get_next_sequence (net.rpc local_get_next_sequence) servers server tt

-- what bind_functions binds, and what the remote calls name, each with the method of its local branch
abbrev pub bindings : List Binding
bindings = (codes "GetNextSequence", Method.thallium_local_get_next_sequence) ∷ []

abbrev pub remote_calls : List Binding
remote_calls = (codes "GetNextSequence", Method.thallium_local_get_next_sequence) ∷ []
