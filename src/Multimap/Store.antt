-- ===== src/Multimap/Store.antt =====
-- The values that stand under a key in a list of elements.
use hcl.Base.{◌≡◌, refl, true, List, [], ◌∷◌, if◌then◌else◌, arith}
use hcl.HashKey.{HashKey, ◌≈◌, ≈_congr, ≈_comm}

module _ {K V : Type 0} ⦃key : HashKey K⦄ where
  unfoldable pub values_in : K → List (K × V) → List V
  values_in k [] = []
  values_in k ((j, v) ∷ es) = let rest = values_in k es in if j ≈ k then v ∷ rest else rest

  pub values_in_congr :
      (k q : K) (es : List (K × V)) → (k ≈ q) ≡ true → values_in k es ≡ values_in q es
  unfolding values_in
  values_in_congr k q [] e = refl
  values_in_congr k q ((j, v) ∷ es) e =
      ground (arith, values_in_congr k q es e, ≈_congr k q j e, ≈_comm j k, ≈_comm j q)
