-- ===== src/Container/Names.antt =====
-- The names under which the methods of a container are bound and called: RPC::bind of
-- include/hcl/communication/rpc_lib_int.cpp, as bind_functions of each container uses it, and the name that
-- the macros RPC_CALL_WRAPPER of include/hcl/common/macros.h call. All containers of a process share one
-- engine. Engines says what a thallium engine does with names, Reach which method a call reaches.
pub mod Engines
pub mod Reach
use Prim.Native.Char.{code}
use Prim.Native.String.{String}
use hcl.Base.{ℕ, List, [], ◌∷◌, Option, some, none, if◌then◌else◌, ◌>>=◌, ◌≡◌}
use hcl.CharStruct.{CharStruct, plus, string}
use hcl.Strings.{same_text}

-- the bytes of a name
abbrev pub codes : String → List ℕ
codes String.[] = []
codes (String.◌∷◌ c s) = code c ∷ codes s

-- the methods that containers bind
pub data Method : Type 0 where
  thallium_local_put : Method
  thallium_local_get : Method
  thallium_local_erase : Method
  thallium_local_contains_in_server : Method
  thallium_local_get_all_data_in_server : Method
  thallium_local_seek_first : Method
  thallium_local_seek_first_n : Method
  thallium_local_pop_first : Method
  thallium_local_size : Method
  thallium_local_push : Method
  thallium_local_pop : Method
  thallium_local_top : Method
  thallium_local_wait_for_element : Method
  thallium_local_get_next_sequence : Method
  thallium_local_get_time : Method
  thallium_local_insert : Method
  thallium_local_find : Method
  thallium_local_get_value : Method
  thallium_local_update : Method

-- a name without its underscore, and the method that is bound, or called, under it
abbrev pub Binding : Type 0
Binding = List ℕ × Method

-- what a thallium engine does: a name that is defined again loses its first function
pub record Registry (F : Type 0) : Type 1 where
  pub Table : Type 0
  pub define : List ℕ → F → Table → Table
  pub called : List ℕ → Table → Option F
  pub called-define :
      (n m : List ℕ) (f : F) (t : Table)
      → called m (define n f t) ≡ (if same_text n m then some f else called m t)

module _ {F : Type 0} (R : Registry F) where
  open R use {Table, define, called}

  -- `func_prefix + name`, and `rpc->bind(func_prefix + name, func)`
  pub full_name : CharStruct → List ℕ → Option CharStruct
  full_name func_prefix name = plus func_prefix (record { value = b'_' ∷ name })

  pub bind : CharStruct → List ℕ → F → Table → Option Table
  unfolding full_name
  bind func_prefix name func table =
      full_name func_prefix name >>= λ str. some (define (string str) func table)

  -- the calls of `bind` in a bind_functions
  pub bind_functions :
      {B : Type 0} → (B → F) → CharStruct → List (List ℕ × B) → Table → Option Table
  unfolding bind
  bind_functions func func_prefix [] table = some table
  bind_functions func func_prefix ((name, b) ∷ bindings) table =
      bind func_prefix name (func b) table >>= λ table'.
      bind_functions func func_prefix bindings table'

  -- which function `rpc->call(server, func_prefix + name, ...)` runs; none: there is none of this name
  pub call : CharStruct → List ℕ → Table → Option F
  unfolding full_name
  call func_prefix name table =
      full_name func_prefix name >>= λ func_name. called func_name.value table
