-- ===== src/Container/Names/Reach.antt =====
-- Which method a call by name reaches.
use hcl.Base.{
  ℕ, ◌+◌, ◌≡◌, ◌≢◌, ◌≤◌, ◌<◌, refl, ◌∙◌, sym, Bool, true, false, ◌&&◌, List, [], ◌∷◌, ◌++◌, Option,
  some, length, if◌then◌else◌, Bool-cases, inl, inr, arith,
}
use hcl.CharStruct.{CharStruct, string}
use hcl.CharStruct.Text.{no_nul, plus-some}
use hcl.Strings.{lacks, same_text}
use hcl.Strings.Find.{same_text_iff, split-injective}
use hcl.Container.Names.{Registry, full_name, bind, bind_functions, call}

-- a name without an underscore and without a zero byte, of at most 16 bytes
pub record IsName (name : List ℕ) : Type 0 where
  pub plain : lacks b'_' name ≡ true
  pub clean : no_nul name ≡ true
  pub short : length name ≤ 16

abbrev pub AllNames {ℓ} : {B : Type ℓ} → List (List ℕ × B) → Type 0
AllNames [] = Unit {0}
AllNames ((name, b) ∷ bindings) = IsName name × AllNames bindings

-- what is bound under a name: the last one of this name, or what was there before
unfoldable pub last_bound {ℓ} : {B : Type ℓ} → List ℕ → List (List ℕ × B) → Option B → Option B
last_bound name [] before = before
last_bound name ((n, b) ∷ bindings) before =
    last_bound name bindings (if same_text n name then some b else before)

abbrev pub bound_functions : {B F : Type 0} → (B → F) → List (List ℕ × B) → List (List ℕ × F)
bound_functions func [] = []
bound_functions func ((n, b) ∷ bindings) = (n, func b) ∷ bound_functions func bindings

-- a name of a container that leaves room for the names of its methods
pub record IsPrefix (prefix : List ℕ) : Type 0 where
  pub clean : no_nul prefix ≡ true
  pub room : length prefix + 17 < 256

abbrev pub text : List ℕ → CharStruct
text xs = record { value = xs }

same_bool : (a b : Bool) → (a ≡ true → b ≡ true) → (b ≡ true → a ≡ true) → a ≡ b
same_bool true true f g = refl
same_bool true false f g = sym (f refl)
same_bool false true f g = g refl
same_bool false false f g = refl

both : (a b : Bool) → a ≡ true → b ≡ true → (a && b) ≡ true
both a b e e' = ground arith

each : (a b : Bool) → (a && b) ≡ true → (a ≡ true) × (b ≡ true)
each a b e = (ground arith, ground arith)

-- two full names are the same just if their parts are
same-names :
    (p q n m : List ℕ)
    → lacks b'_' n ≡ true
    → lacks b'_' m ≡ true
    → same_text (p ++ b'_' ∷ n) (q ++ b'_' ∷ m) ≡ (same_text p q && same_text n m)
same-names p q n m ln lm =
    same_bool (same_text (p ++ b'_' ∷ n) (q ++ b'_' ∷ m)) (same_text p q && same_text n m)
      (λ e.
        let parts =
          split-injective b'_' p q n m ln lm
            ((same_text_iff (p ++ b'_' ∷ n) (q ++ b'_' ∷ m)).0 e) in
        both (same_text p q) (same_text n m) ((same_text_iff p q).1 parts.0)
          ((same_text_iff n m).1 parts.1))
      (λ e.
        let parts = each (same_text p q) (same_text n m) e in
        let first = (same_text_iff p q).0 parts.0 in
        let second = (same_text_iff n m).0 parts.1 in
        (same_text_iff (p ++ b'_' ∷ n) (q ++ b'_' ∷ m)).1 (rw (first, second) refl))

module _ {F : Type 0} (R : Registry F) where
  open R use {Table, define, called, called-define}

  full_name-some :
      (p name : List ℕ)
      → IsPrefix p
      → IsName name
      → full_name R (text p) name ≡ some (text (p ++ b'_' ∷ name))
  unfolding full_name lacks
  full_name-some p name prefix h =
      (plus-some p prefix.clean (b'_' ∷ name) (ground (arith, h.clean))
        (omega (arith, prefix.room, h.short))).0

  -- a call behind the binding of a container's functions
  bind_functions-called :
      {B : Type 0} (func : B → F) (p q name : List ℕ) (bindings : List (List ℕ × B)) (t : Table)
      → IsPrefix p
      → IsName name
      → AllNames bindings
      → (t' : Table) × (bind_functions R func (text p) bindings t ≡ some t')
        × (called (q ++ b'_' ∷ name) t' ≡ (
            if same_text p q
            then last_bound name (bound_functions func bindings) (called (q ++ b'_' ∷ name) t)
            else called (q ++ b'_' ∷ name) t))
  unfolding bind_functions bind string last_bound
  bind_functions-called func p q name [] t prefix h all =
      (t, refl, elim (Bool-cases (same_text p q)) [ inl e ↦ rw e refl | inr e ↦ rw e refl ])
  bind_functions-called func p q name ((n, b) ∷ bindings) t prefix h (hn, all) =
      let t1 = define (p ++ b'_' ∷ n) (func b) t in
      let (t', runs, reaches) = bind_functions-called func p q name bindings t1 prefix h all in
      let first = called-define (p ++ b'_' ∷ n) (q ++ b'_' ∷ name) (func b) t in
      let same = same-names p q n name hn.plain h.plain in
      (
        t',
        rw (full_name-some p n prefix hn) runs,
        reaches ∙ elim (Bool-cases (same_text p q)) [
          | inl e ↦ rw (first, same, e) refl
          | inr e ↦ rw (first, same, e) refl
        ],
      )

  -- two containers bind their functions one after the other; a call for the first one reaches what it has
  -- bound itself
  pub bind_functions-call :
      {B : Type 0} (func func' : B → F) (p q name : List ℕ) (bindings bindings' : List (List ℕ × B))
      (t : Table)
      → IsPrefix p × IsPrefix q × (p ≢ q)
      → IsName name
      → AllNames bindings × AllNames bindings'
      → (t' t'' : Table) × (bind_functions R func (text p) bindings t ≡ some t')
        × (bind_functions R func' (text q) bindings' t' ≡ some t'')
        × (call R (text p) name t''
            ≡ last_bound name (bound_functions func bindings) (call R (text p) name t))
  unfolding call
  bind_functions-call func func' p q name bindings bindings' t (hp, hq, differ) h (all, all') =
      let (t', runs, reaches) = bind_functions-called func p p name bindings t hp h all in
      let (t'', runs', reaches') = bind_functions-called func' q p name bindings' t' hq h all' in
      let other : same_text q p ≡ false = ground (arith, same_text_iff q p) in
      let own = (same_text_iff p p).1 refl in
      (t', t'', runs, runs', rw (full_name-some p name hp h, reaches', other, reaches, own) refl)
