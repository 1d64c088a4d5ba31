-- ===== src/Multimap/Listed.antt =====
-- A plain list meets the description of the Boost multimap: insertion at the end, and the first element
-- with a key is the one that is found.
use hcl.Base.{
  ◌≤◌, ◌≡◌, refl, sym, ap, ◌∙◌, false, List, [], ◌∷◌, ◌++◌, Option, some, none, length,
  if◌then◌else◌, arith, inl, inr, Bool-cases,
}
use hcl.HashKey.{HashKey, SortKey, ◌≈◌, ≈_congr, ≈_comm}
use hcl.Sorted.Lists.{leading}
use hcl.Multimap.Ascending.{lower}
use hcl.Multimap.{MultiContainer, values_in}

module _ {K V : Type 0} ⦃key : HashKey K⦄ where
  unfoldable pub find : K → List (K × V) → Option (K × V)
  find k [] = none
  find k ((j, v) ∷ es) = let rest = find k es in if j ≈ k then some (j, v) else rest

  unfoldable pub erase_found : K → List (K × V) → List (K × V)
  erase_found k [] = []
  erase_found k ((j, v) ∷ es) = let rest = erase_found k es in if j ≈ k then es else (j, v) ∷ rest

  unfoldable pub erase_all : K → List (K × V) → List (K × V)
  erase_all k [] = []
  erase_all k ((j, v) ∷ es) = let rest = erase_all k es in if j ≈ k then rest else (j, v) ∷ rest

  pub find_none : (k : K) (es : List (K × V)) → values_in k es ≡ [] → find k es ≡ none
  unfolding find values_in
  find_none k [] e = refl
  find_none k ((j, v) ∷ es) e = elim (Bool-cases (j ≈ k)) [
    | inl same ↦ absurd (ground arith)
    | inr other ↦ rw other (find_none k es (ground arith))
  ]

  pub find_some :
      (k : K) (es : List (K × V)) (v : V) (rest : List V)
      → values_in k es ≡ v ∷ rest
      → (j : K) × (w : V) × (before : List V) × (after : List V) × (find k es ≡ some (j, w))
        × (values_in k es ≡ before ++ (w ∷ after))
        × (values_in k (erase_found k es) ≡ before ++ after)
  unfolding find erase_found values_in
  find_some k [] v rest e = absurd (cc)
  find_some k ((j, w) ∷ es) v rest e = elim (Bool-cases (j ≈ k)) [
    | inl same ↦ (j, w, [], values_in k es, rw same refl, rw same refl, rw same refl)
    | inr other ↦
        let (i, x, before, after, at, all, left) = find_some k es v rest (ground arith) in
        (i, x, before, after, rw other at, rw other all, rw (other, other) left)
  ]

  pub erase_found-other :
      (k : K) (es : List (K × V)) (q : K)
      → (k ≈ q) ≡ false
      → values_in q (erase_found k es) ≡ values_in q es
  unfolding erase_found values_in
  erase_found-other k [] q e = refl
  erase_found-other k ((j, v) ∷ es) q e = elim (Bool-cases (j ≈ k)) [
    | inl same ↦ rw (same, ≈_congr j k q same, e) refl
    | inr other ↦ rw (other, erase_found-other k es q e) refl
  ]

  pub values-insert :
      (k : K) (v : V) (es : List (K × V)) (q : K)
      → values_in q (es ++ ((k, v) ∷ []))
        ≡ (if k ≈ q then values_in q es ++ (v ∷ []) else values_in q es)
  unfolding values_in
  values-insert k v [] q = refl
  values-insert k v ((j, w) ∷ es) q =
      let ih = values-insert k v es q in
      elim (Bool-cases (j ≈ q)) [
        | inl first ↦ elim (Bool-cases (k ≈ q)) [
          | inl here ↦ rw (first, here) (ap (◌∷◌ w) (ih ∙ rw here refl))
          | inr there ↦ rw (first, there) (ap (◌∷◌ w) (ih ∙ rw there refl))
        ]
        | inr later ↦ rw later ih
      ]

  pub values-erase :
      (k : K) (es : List (K × V)) (q : K)
      → values_in q (erase_all k es) ≡ (if k ≈ q then [] else values_in q es)
  unfolding erase_all values_in
  values-erase k [] q = ground arith
  values-erase k ((j, v) ∷ es) q =
      let ih = values-erase k es q in
      elim (Bool-cases (j ≈ k)) [
        | inl same ↦ rw (same, ≈_congr j k q same) (ground (arith, ih))
        | inr other ↦ elim (Bool-cases (j ≈ q)) [
          | inl first ↦
              let apart = ≈_comm k q ∙ sym (≈_congr j q k first) ∙ other in
              rw (other, first, apart) (ap (◌∷◌ v) (ih ∙ rw apart refl))
          | inr later ↦ rw (other, later) ih
        ]
      ]

pub leading-le :
    {K V : Type 0} ⦃key : HashKey K⦄ ⦃sort : SortKey K⦄ (k : K) (es : List (K × V))
    → lower k es ≤ length es
unfolding leading
leading-le k [] = omega arith
leading-le k ((j, v) ∷ es) = ground (arith, leading-le k es)

abbrev pub listed : (K V : Type 0) ⦃key : HashKey K⦄ ⦃sort : SortKey K⦄ → MultiContainer K V
listed K V = record {
  Store = List (K × V);
  empty = [];
  elements = λ es. es;
  find = find;
  erase_found = erase_found;
  insert = λ e es. es ++ (e ∷ []);
  erase = λ k es. (length (values_in k es), erase_all k es);
  lower_bound = λ k es. lower k es;
  lower_bound-le = leading-le;
  elements-empty = refl;
  find_none = find_none;
  find_some = find_some;
  erase_found-other = erase_found-other;
  values-insert = values-insert;
  erased = λ k es. refl;
  values-erase = values-erase;
}
