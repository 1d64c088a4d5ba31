-- ===== src/Sorted/Lists.antt =====
-- Lists of elements sorted by key, with no key twice: search, insertion, removal.
use hcl.Base.{
  ℕ, suc, ◌≡◌, refl, Bool, true, ◌&&◌, ◌||◌, not, List, [], ◌∷◌, Option, some, none, is_some,
  if◌then◌else◌, arith,
}
use hcl.HashKey.{HashKey, SortKey, ◌≈◌, ◌≺◌, ≺_congr_left, ≈_congr, ≈_comm}

module _ {E K : Type 0} ⦃key : HashKey K⦄ (key_of : E → K) where
  -- the first element with a key
  unfoldable pub search : K → List E → Option E
  search k [] = none
  search k (x ∷ xs) = if key_of x ≈ k then some x else search k xs

  pub search_congr : (k q : K) (xs : List E) → (k ≈ q) ≡ true → search k xs ≡ search q xs
  unfolding search
  search_congr k q [] e = refl
  search_congr k q (x ∷ xs) e = ground (
    arith,
    search_congr k q xs e,
    ≈_congr k q (key_of x) e,
    ≈_comm (key_of x) k,
    ≈_comm (key_of x) q,
  )

module _ {E K : Type 0} ⦃key : HashKey K⦄ ⦃sort : SortKey K⦄ (key_of : E → K) where
  unfoldable pub above : K → List E → Bool
  above k [] = true
  above k (x ∷ xs) = (k ≺ key_of x) && above k xs

  unfoldable pub sorted : List E → Bool
  unfolding above
  sorted [] = true
  sorted (x ∷ xs) = above (key_of x) xs && sorted xs

  -- how many elements stand before the first one whose key is not below `k`
  unfoldable pub leading : K → List E → ℕ
  leading k [] = 0
  leading k (x ∷ xs) = let rest = leading k xs in if key_of x ≺ k then suc rest else 0

  -- an element put in its place; one with the same key is replaced if `assign`, and else left alone
  pub put : Bool → E → List E → List E
  put assign e [] = e ∷ []
  put assign e (x ∷ xs) =
      let rest = put assign e xs in
      if key_of e ≺ key_of x
      then e ∷ x ∷ xs
      else (if key_of x ≺ key_of e then x ∷ rest else (if assign then e ∷ xs else x ∷ xs))

  pub remove : K → List E → List E
  remove k [] = []
  remove k (x ∷ xs) = let rest = remove k xs in if key_of x ≈ k then xs else x ∷ rest

  above_trans : (k j : K) (xs : List E) → (k ≺ j) ≡ true → above j xs ≡ true → above k xs ≡ true
  unfolding above
  above_trans k j [] h a = refl
  above_trans k j (x ∷ xs) h a =
      ground (arith, above_trans k j xs h, sort.less_trans k j (key_of x))

  above_congr : (k j : K) (xs : List E) → (k ≈ j) ≡ true → above k xs ≡ above j xs
  unfolding above
  above_congr k j [] e = refl
  above_congr k j (x ∷ xs) e = ground (arith, above_congr k j xs e, ≺_congr_left k j (key_of x) e)

  -- a key is not in a list of larger ones
  search-above :
      (k q : K) (xs : List E)
      → above k xs ≡ true
      → ((q ≺ k) || (q ≈ k)) ≡ true
      → search key_of q xs ≡ none
  unfolding above search
  search-above k q [] a h = refl
  search-above k q (x ∷ xs) a h = ground (
    arith,
    search-above k q xs,
    sort.less_trans q k (key_of x),
    ≺_congr_left q k (key_of x),
    sort.equal-less (key_of x) q,
  )

  above-put :
      (k : K) (b : Bool) (e : E) (xs : List E)
      → above k xs ≡ true
      → (k ≺ key_of e) ≡ true
      → above k (put b e xs) ≡ true
  unfolding above put
  above-put k b e [] a h = ground arith
  above-put k b e (x ∷ xs) a h = ground (arith, above-put k b e xs)

  pub sorted-put : (b : Bool) (e : E) (xs : List E) → sorted xs ≡ true → sorted (put b e xs) ≡ true
  unfolding sorted put above
  sorted-put b e [] s = refl
  sorted-put b e (x ∷ xs) s = ground (
    arith,
    sorted-put b e xs,
    above-put (key_of x) b e xs,
    above_trans (key_of e) (key_of x) xs,
    above_congr (key_of e) (key_of x) xs,
    sort.equal-less (key_of e) (key_of x),
  )

  pub search-put :
      (b : Bool) (e : E) (xs : List E) (q : K)
      → sorted xs ≡ true
      → search key_of q (put b e xs) ≡ (
          if (key_of e ≈ q) && (b || not (is_some (search key_of (key_of e) xs)))
          then some e
          else search key_of q xs)
  unfolding sorted put search
  search-put b e [] q s = ground arith
  search-put b e (x ∷ xs) q s = ground (
    arith,
    search-put b e xs q,
    search-above (key_of x) (key_of e) xs,
    ≈_congr (key_of e) (key_of x) q,
    ≈_congr (key_of x) (key_of e) q,
    ≈_congr (key_of e) q (key_of x),
    ≈_comm (key_of x) q,
    ≈_comm (key_of x) (key_of e),
    sort.equal-less (key_of e) (key_of x),
    sort.equal-less (key_of x) (key_of e),
  )

  pub search-assign :
      (e : E) (xs : List E) (q : K)
      → sorted xs ≡ true
      → search key_of q (put true e xs) ≡ (if key_of e ≈ q then some e else search key_of q xs)
  search-assign e xs q s = ground (arith, search-put true e xs q s)

  above-remove : (k j : K) (xs : List E) → above k xs ≡ true → above k (remove j xs) ≡ true
  unfolding above remove
  above-remove k j [] a = refl
  above-remove k j (x ∷ xs) a = ground (arith, above-remove k j xs)

  pub sorted-remove : (k : K) (xs : List E) → sorted xs ≡ true → sorted (remove k xs) ≡ true
  unfolding sorted remove above
  sorted-remove k [] s = refl
  sorted-remove k (x ∷ xs) s = ground (arith, sorted-remove k xs, above-remove (key_of x) k xs)

  pub search-remove :
      (k : K) (xs : List E) (q : K)
      → sorted xs ≡ true
      → search key_of q (remove k xs) ≡ (if k ≈ q then none else search key_of q xs)
  unfolding sorted remove search
  search-remove k [] q s = ground arith
  search-remove k (x ∷ xs) q s = ground (
    arith,
    search-remove k xs q,
    search-above (key_of x) q xs,
    ≈_congr (key_of x) k q,
    ≈_congr k q (key_of x),
    ≈_comm (key_of x) q,
    ≈_comm (key_of x) k,
  )
