-- ===== src/Container/Files/Paths.antt =====
-- The path of the file of a server's shared memory.
use hcl.Base.{
  ℕ, ◌+◌, ◌≡◌, ◌<◌, refl, ◌∙◌, ap, sym, true, List, [], ◌∷◌, ◌++◌, append_assoc, some, length,
  length-append, arith,
}
use hcl.CharStruct.Text.{no_nul, of_string-some, plus-some}
use hcl.Strings.{lacks, to_string, is_digit, atoi}
use hcl.Strings.Find.{lacks-append, split-injective}
use hcl.Strings.Numbers.{atoi-to_string, lacks-to_string, lacks_nul-to_string, length-to_string}
use hcl.Container.Files.{underscore, backed_file_of, name_of}

-- name_number
abbrev pub numbered : List ℕ → ℕ → List ℕ
numbered name idx = name ++ (underscore ++ to_string idx)

-- directory/name_number
abbrev pub path_text : List ℕ → List ℕ → ℕ → List ℕ
path_text dir name idx = dir ++ (b'/' ∷ numbered name idx)

-- texts without zero bytes that leave room for a number
pub record Fits (dir name : List ℕ) (idx : ℕ) : Type 0 where
  pub clean_dir : no_nul dir ≡ true
  pub clean_name : no_nul name ≡ true
  pub room : length dir + length name + 7 < 256
  pub small : idx < 65536

module _ {dir name : List ℕ} {idx : ℕ} (h : Fits dir name idx) where
  pub backed_file_of-path_text :
      backed_file_of (record { value = dir }) (record { value = name }) idx
      ≡ some (record { value = path_text dir name idx })
  unfolding backed_file_of lacks
  backed_file_of-path_text =
      let slash : List ℕ = b'/' ∷ [] in
      let digits_clean = lacks_nul-to_string idx in
      let digits_short = length-to_string idx h.small in
      let clean' = lacks-append 0 dir slash h.clean_dir refl in
      let clean'' = lacks-append 0 (dir ++ slash) name clean' h.clean_name in
      let clean''' = lacks-append 0 ((dir ++ slash) ++ name) underscore clean'' refl in
      let len' = length-append dir slash in
      let len'' = length-append (dir ++ slash) name in
      let len''' = length-append ((dir ++ slash) ++ name) underscore in
      rw
        (
          (plus-some dir h.clean_dir slash refl (omega (arith, h.room))).0,
          (plus-some (dir ++ slash) clean' name h.clean_name (omega (arith, h.room))).0,
          (plus-some ((dir ++ slash) ++ name) clean'' underscore refl (omega (arith, h.room))).0,
          of_string-some (to_string idx) digits_clean (omega (arith, h.room)),
          (plus-some (((dir ++ slash) ++ name) ++ underscore) clean''' (to_string idx) digits_clean
              (omega (arith, h.room))).0,
        )
        (simp append_assoc)

  pub name_of-numbered :
      name_of (record { value = name }) idx ≡ some (record { value = numbered name idx })
  unfolding name_of lacks
  name_of-numbered =
      let suffix = underscore ++ to_string idx in
      let digits_short = length-to_string idx h.small in
      let clean = lacks-append 0 underscore (to_string idx) refl (lacks_nul-to_string idx) in
      rw
        (
          of_string-some suffix clean (omega (arith, h.room)),
          (plus-some name h.clean_name suffix clean (omega (arith, h.room))).1,
        )
        refl

append-left : (xs ys zs : List ℕ) → xs ++ ys ≡ xs ++ zs → ys ≡ zs
append-left [] ys zs e = e
append-left (x ∷ xs) ys zs e = append-left xs ys zs (cc)

to_string-injective : (i j : ℕ) → i < 65536 → j < 65536 → to_string i ≡ to_string j → i ≡ j
to_string-injective i j lt lt' e =
    let read = sym (atoi-to_string i (omega arith)) ∙ ap atoi e ∙ atoi-to_string j (omega arith) in
    ground arith

to_string-lacks_underscore : (i : ℕ) → lacks b'_' (to_string i) ≡ true
unfolding is_digit
to_string-lacks_underscore i = lacks-to_string b'_' i refl

numbered-injective :
    (name name' : List ℕ) (i j : ℕ)
    → i < 65536
    → j < 65536
    → numbered name i ≡ numbered name' j
    → (name ≡ name') × (i ≡ j)
numbered-injective name name' i j lt lt' e =
    let (names, digits) =
      split-injective b'_' name name' (to_string i) (to_string j) (to_string-lacks_underscore i)
        (to_string-lacks_underscore j) e in
    (names, to_string-injective i j lt lt' digits)

pub path_text-injective :
    (dir name name' : List ℕ) (i j : ℕ)
    → i < 65536
    → j < 65536
    → path_text dir name i ≡ path_text dir name' j
    → (name ≡ name') × (i ≡ j)
path_text-injective dir name name' i j lt lt' e =
    numbered-injective name name' i j lt lt'
      (append-left (b'/' ∷ []) (numbered name i) (numbered name' j) (append-left dir _ _ e))
