-- ===== src/Tests/Dispatches.antt =====
-- Calls by name at concrete containers.
use hcl.Base.{ℕ, ◌≡◌, refl, false, [], ◌∷◌, List, some, arith}
use hcl.Strings.{lacks, same_text}
use hcl.Container.Names.{Method, Registry, bind_functions, call, codes}
use hcl.Container.Names.Engines.{list_registry}
use hcl.Container.Names.Reach.{IsPrefix, text}
use hcl.Dispatch.{Kind, bindings_of, call-own_method}

-- "m" and "m_Put"
abbrev first_name : List ℕ
first_name = b'm' ∷ []

abbrev second_name : List ℕ
second_name = codes "m_Put"

first_name-IsPrefix : IsPrefix first_name
unfolding lacks
first_name-IsPrefix = record { clean = refl; room = omega arith }

second_name-IsPrefix : IsPrefix second_name
unfolding lacks
second_name-IsPrefix = record { clean = refl; room = omega arith }

put-ne_seek : same_text (codes "Put") (codes "SeekFirstN") ≡ false
unfolding same_text
put-ne_seek = refl

abbrev registry : Registry (ℕ × Method)
registry = list_registry (ℕ × Method)

abbrev in_object : ℕ → Method → ℕ × Method
in_object n m = (n, m)

call-own_method_example :
    (table' table'' : registry.Table) × (bind_functions registry
        (in_object 0)
        (text first_name)
        (bindings_of Kind.map)
        []
      ≡ some table')
    × (bind_functions registry (in_object 1) (text second_name) (bindings_of Kind.set) table'
        ≡ some table'')
    × (call registry (text first_name) (codes "Put") table'' ≡ some (0, Method.thallium_local_put))
call-own_method_example =
    call-own_method registry (in_object 0) (in_object 1) Kind.map Kind.set first_name second_name []
      0 (codes "Put") Method.thallium_local_put
      (first_name-IsPrefix, second_name-IsPrefix, λ e. absurd (cc)) refl put-ne_seek
