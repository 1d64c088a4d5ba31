-- ===== src/Container/Names/Engines.antt =====
-- An engine that meets the description: a list of names.
use hcl.Base.{ℕ, refl, List, [], ◌∷◌, Option, some, none, if◌then◌else◌}
use hcl.Strings.{same_text}
use hcl.Container.Names.{Registry}

module _ {F : Type 0} where
  abbrev look_up : List ℕ → List (List ℕ × F) → Option F
  look_up name [] = none
  look_up name ((n, f) ∷ table) =
      let rest = look_up name table in if same_text n name then some f else rest

abbrev pub list_registry : (F : Type 0) → Registry F
list_registry F = record {
  Table = List (List ℕ × F);
  define = λ name f table. (name, f) ∷ table;
  called = look_up;
  called-define = λ n m f t. refl;
}
