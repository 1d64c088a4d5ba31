-- ===== src/UnorderedMap/Table.antt =====
-- An association list meets the description of the Boost map.
use hcl.Base.{
  ◌≡◌, refl, true, not, List, [], ◌∷◌, Option, some, none, is_some, if◌then◌else◌, arith,
}
use hcl.HashKey.{HashKey, ◌≈◌, ≈_congr, ≈_comm}
use hcl.UnorderedMap.{HashMap}

module _ {K V : Type 0} ⦃key : HashKey K⦄ where
  unfoldable pub find : K → List (K × V) → Option V
  find k [] = none
  find k ((j, v) ∷ es) = if j ≈ k then some v else find k es

  unfoldable pub assign : K → V → List (K × V) → List (K × V)
  assign k v [] = (k, v) ∷ []
  assign k v ((j, w) ∷ es) =
      let rest = assign k v es in if j ≈ k then (j, v) ∷ es else (j, w) ∷ rest

  unfoldable pub erase : K → List (K × V) → List (K × V)
  erase k [] = []
  erase k ((j, w) ∷ es) = let rest = erase k es in if j ≈ k then rest else (j, w) ∷ rest

  pub find_congr : (k q : K) (es : List (K × V)) → (k ≈ q) ≡ true → find k es ≡ find q es
  unfolding find
  find_congr k q [] e = refl
  find_congr k q ((j, v) ∷ es) e =
      ground (arith, find_congr k q es e, ≈_congr k q j e, ≈_comm j k, ≈_comm j q)

  pub find-assign :
      (k : K) (v : V) (es : List (K × V)) (q : K)
      → find q (assign k v es) ≡ (if k ≈ q then some v else find q es)
  unfolding find assign
  find-assign k v [] q = refl
  find-assign k v ((j, w) ∷ es) q =
      ground (arith, find-assign k v es q, ≈_congr j k q, ≈_congr k q j, ≈_comm j q, ≈_comm j k)

  pub find-erase :
      (k : K) (es : List (K × V)) (q : K)
      → find q (erase k es) ≡ (if k ≈ q then none else find q es)
  unfolding find erase
  find-erase k [] q = ground arith
  find-erase k ((j, w) ∷ es) q =
      ground (arith, find-erase k es q, ≈_congr j k q, ≈_congr k q j, ≈_comm j q, ≈_comm j k)

  pub find-nil : (k : K) → find k [] ≡ none
  unfolding find
  find-nil k = refl

  abbrev pub hash_list : HashMap K V
  hash_list = record {
    Store = List (K × V);
    empty = [];
    elements = λ s. s;
    find = find;
    insert_or_assign = λ k v s. (not (is_some (find k s)), assign k v s);
    erase = erase;
    find-empty = find-nil;
    find_congr = find_congr;
    inserted = λ k v s. refl;
    find-insert_or_assign = find-assign;
    find-erase = find-erase;
  }
