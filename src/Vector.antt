-- ===== src/Vector.antt =====
-- include/hcl/vector/vector.cpp: the class vector. A server's vector is the list of its elements;
-- `value_default` is MappedType(). Each caller names the server. Reads has what the calls answer.
pub mod Reads
use hcl.Container.Names.{Binding, Method, codes}
use hcl.Base.{
  ℕ, ◌>>=◌, Bool, true, false, List, [], ◌∷◌, ◌++◌, Option, some, length, get_elem?, if◌then◌else◌,
  ltb,
}
use hcl.Container.{Container, Network, call}

module _ {V : Type 0} where
  pub local_push : V → List V → Option (Bool × List V)
  local_push value xs = some (true, xs ++ (value ∷ []))

  -- none: `at` throws
  pub local_get : V → ℕ → List V → Option ((Bool × V) × List V)
  local_get value_default index xs =
      if ltb index (length xs)
      then (get_elem? xs index >>= λ value. some ((true, value), xs))
      else some ((false, value_default), xs)

  pub local_size : Unit {0} → List V → Option (ℕ × List V)
  local_size _ xs = some (length xs, xs)

  module _ (net : Network (List V)) where
    pub push : Container → List (List V) → V → ℕ → Option (Bool × List (List V))
    unfolding local_push
    push c servers value key_int = call c local_push (net.rpc local_push) servers key_int value

    pub get : V → Container → List (List V) → ℕ → ℕ → Option ((Bool × V) × List (List V))
    unfolding local_get
    get value_default c servers index key_int =
        call c (local_get value_default) (net.rpc (local_get value_default)) servers key_int index

    pub size : Container → List (List V) → ℕ → Option (ℕ × List (List V))
    unfolding local_size
    size c servers key_int = call c local_size (net.rpc local_size) servers key_int tt

-- what bind_functions binds, and what the remote calls name, each with the method of its local branch
abbrev pub bindings : List Binding
bindings =
    (codes "Push", Method.thallium_local_push)
    ∷ (codes "Get", Method.thallium_local_get)
    ∷ (codes "Size", Method.thallium_local_size)
    ∷ []

abbrev pub remote_calls : List Binding
remote_calls =
    (codes "Push", Method.thallium_local_push)
    ∷ (codes "Get", Method.thallium_local_get)
    ∷ (codes "Size", Method.thallium_local_size)
    ∷ []
