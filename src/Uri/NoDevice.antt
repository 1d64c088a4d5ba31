-- ===== src/Uri/NoDevice.antt =====
-- The addresses of a URI with no slash behind its protocol.
use hcl.Base.{
  ℕ, ◌+◌, ◌-◌, ◌≡◌, ◌<◌, ◌≤◌, refl, true, List, [], ◌∷◌, ◌++◌, Option, some, none, length,
  length-append, drop, ltb, leb, lt→ltb, le→ltb, if◌then◌else◌, Bool-cases, ltb→lt, not_ltb→le, inl,
  inr, arith,
}
use hcl.CharStruct.{CharStruct, string}
use hcl.CharStruct.Text.{no_nul, of_string-some}
use hcl.Strings.{lacks, substr}
use hcl.Strings.Find.{
  find-append, find-lacks, take-length, length-drop, lacks-drop, substr-front, substr-after,
}
use hcl.Uri.{no_text, scheme_end, slash, cut_interface, cut_rest, cut_uri}
use hcl.Uri.Addresses.{text, without_device}

-- the end of a text, from a place in it on
substr-end :
    (xs : List ℕ) (first n : ℕ)
    → length xs ≤ n
    → substr xs first n ≡ (if leb first (length xs) then some (drop first xs) else none)
unfolding substr
substr-end xs first n le =
    rw (take-length (drop first xs) n (omega (arith, length-drop xs first))) refl

-- what stands in `rest` from `start` on, where it is cut for the interface
abbrev interface_of : List ℕ → ℕ → Option CharStruct
interface_of rest start =
    if ltb 2 (length rest)
    then (if leb start (length rest) then some (text (drop start rest)) else none)
    else some no_text

cut_interface-of :
    (rest : List ℕ) (start uri_size : ℕ)
    → no_nul rest ≡ true
    → uri_size ≡ start + length rest
    → 2 ≤ start
    → uri_size < 256
    → cut_interface rest uri_size start ≡ interface_of rest start
unfolding cut_interface
cut_interface-of rest start uri_size clean len two lt = elim (Bool-cases (ltb 2 (length rest))) [
  | inr short ↦
      rw (short, le→ltb start (uri_size - 2) (omega (arith, not_ltb→le 2 (length rest) short))) refl
  | inl long ↦
      let past : ltb start (uri_size - 2) ≡ true =
        lt→ltb start (uri_size - 2) (omega (arith, ltb→lt 2 (length rest) long)) in
      rw (long, past, substr-end rest start (uri_size - 2) (omega arith))
        (elim (Bool-cases (leb start (length rest))) [
          | inr outside ↦ rw outside refl
          | inl inside ↦
              rw
                (
                  inside,
                  of_string-some (drop start rest) (lacks-drop 0 rest start clean)
                      (omega (arith, length-drop rest start)),
                )
                refl
        ])
]

-- The address `protocol://rest`, its protocol without a colon, no slash and no zero byte in the rest, and
-- all shorter than 256 bytes: it has no device. A rest of at most two bytes gives no interface; of a longer
-- one the interface is what stands behind as many bytes as the protocol and `://` have, and where the rest
-- is shorter than those the constructor ends with std::out_of_range.
pub cut_uri-without_device :
    (p rest : List ℕ)
    → (lacks b':' p ≡ true) × (lacks b'/' rest ≡ true)
    → (no_nul p ≡ true) × (no_nul rest ≡ true)
    → length p + 3 + length rest < 256
    → cut_uri (text (without_device p rest)) ≡ (
        if ltb 2 (length rest)
        then (if leb (length p + 3) (length rest)
            then some (text p, no_text, text (drop (length p + 3) rest))
            else none)
        else some (text p, no_text, no_text))
unfolding cut_uri cut_rest string
cut_uri-without_device p rest (free, free') (clean, clean') lt =
    let len : length (without_device p rest) ≡ length p + 3 + length rest =
      omega (arith, length-append p (scheme_end ++ rest)) in
    rw
      (
        find-append b':' (b'/' ∷ slash) p rest free,
        cut_uri,
        substr-front p (scheme_end ++ rest),
        of_string-some p clean (omega arith),
        substr-after p scheme_end rest (length p + 3) (length (without_device p rest)) (omega arith)
            (omega arith),
        find-lacks b'/' [] rest free',
        cut_rest,
        cut_interface-of rest (length p + 3) (length (without_device p rest)) clean' len
            (omega arith) (omega arith),
      )
      (elim (Bool-cases (ltb 2 (length rest))) [
        | inr short ↦ rw short refl
        | inl long ↦ rw long (elim (Bool-cases (leb (length p + 3) (length rest))) [
          | inr outside ↦ rw outside refl
          | inl inside ↦ rw inside refl
        ])
      ])
