-- ===== src/Sorted/Range.antt =====
-- include/hcl/set/set.cpp, lines 224 to 259, and include/hcl/map/map.cpp, lines 197 to 234: the search
-- for the elements between two keys, with the test of a single element as a parameter, since set writes
-- `>=` there and map `>`.
use hcl.Base.{
  drop-length, ==_iff, ap, subst, ℕ, zero, suc, ◌≡◌, refl, sym, ◌∙◌, Bool, true, false, ◌&&◌, not,
  List, [], ◌∷◌, Option, some, length, get_elem?, filter, drop, if◌then◌else◌, ◌>>=◌, ◌==◌, arith,
  Bool-cases, inl, inr,
}
use hcl.HashKey.{HashKey, SortKey, ◌≺◌}
use hcl.Sorted.{SortedContainer}
use hcl.Sorted.Lists.{sorted, above, leading}

module _ {E K : Type 0} ⦃key : HashKey K⦄ ⦃sort : SortKey K⦄ (key_of : E → K) where
  -- `while (lower_bound != end()) { if (*lower_bound > key_end) break; ... }`
  collect : K → List E → List E
  collect key_end [] = []
  collect key_end (x ∷ xs) =
      let rest = collect key_end xs in if key_end ≺ key_of x then [] else x ∷ rest

  pub between : K → K → E → Bool
  between key_start key_end e = not (key_of e ≺ key_start) && not (key_end ≺ key_of e)

  none_between :
      (a b k : K) (xs : List E)
      → (b ≺ k) ≡ true
      → above key_of k xs ≡ true
      → filter (between a b) xs ≡ []
  unfolding filter above between
  none_between a b k [] h up = refl
  none_between a b k (x ∷ xs) h up =
      ground (arith, none_between a b k xs, sort.less_trans b k (key_of x))

  collect-filter :
      (a b : K) (xs : List E) (k : K)
      → sorted key_of xs ≡ true
      → above key_of k xs ≡ true
      → (k ≺ a) ≡ false
      → collect b xs ≡ filter (between a b) xs
  unfolding collect filter between sorted above
  collect-filter a b [] k s up ge = refl
  collect-filter a b (x ∷ xs) k s up ge = ground (
    arith,
    none_between a b (key_of x) xs,
    collect-filter a b xs (key_of x),
    sort.less_trans k (key_of x) a,
  )

  -- the walk from the first element that is not below key_start
  collect-drop :
      (a b : K) (xs : List E)
      → sorted key_of xs ≡ true
      → collect b (drop (leading key_of a xs) xs) ≡ filter (between a b) xs
  unfolding collect filter between sorted leading drop
  collect-drop a b [] s = refl
  collect-drop a b (x ∷ xs) s = elim (Bool-cases (key_of x ≺ a)) [
    | inl low ↦ rw low (collect-drop a b xs (ground arith))
    | inr high ↦
        rw high (ground (arith, none_between a b (key_of x) xs, collect-filter a b xs (key_of x)))
  ]

  nothing_left :
      (a b : K) (xs : List E)
      → leading key_of a xs ≡ length xs
      → collect b (drop (leading key_of a xs) xs) ≡ filter (between a b) xs
      → filter (between a b) xs ≡ []
  unfolding collect
  nothing_left a b xs at found =
      sym found ∙ ap (λ n. collect b (drop n xs)) at ∙ ap (collect b) (drop-length xs)

  -- the element before is below key_start
  leading-prev :
      (a : K) (xs : List E) (i : ℕ)
      → leading key_of a xs ≡ suc i
      → (e : E) × (get_elem? xs i ≡ some e) × ((key_of e ≺ a) ≡ true)
  unfolding leading
  leading-prev a [] i h = absurd (omega arith)
  leading-prev a (x ∷ xs) zero h = (x, refl, ground arith)
  leading-prev a (x ∷ xs) (suc i) h = leading-prev a xs i (ground arith)

module _ {E K : Type 0} ⦃key : HashKey K⦄ ⦃sort : SortKey K⦄ {key_of : E → K}
    (C : SortedContainer key_of) where
  -- `--lower_bound; if (key_start > *lower_bound) lower_bound++;` unless at begin()
  step_back : C.Store → K → ℕ → Option ℕ
  step_back s key_start zero = some 0
  step_back s key_start (suc i) = do
    e ← get_elem? (C.elements s) i
    some (if key_of e ≺ key_start then suc i else i)

  -- none: an iterator is read where there is no element
  pub local_contains_in_server : (single : K → K → Bool) → C.Store → K → K → Option (List E)
  unfolding collect step_back
  local_contains_in_server single s key_start key_end =
      let size = length (C.elements s) in
      let lower_bound = C.lower_bound key_start s in
      if size == 0
      then some []
      else (if size == 1
          then (get_elem? (C.elements s) 0 >>= λ e.
              some (if single (key_of e) key_start then e ∷ [] else []))
          else (if lower_bound == size
              then some []
              else (step_back s key_start lower_bound >>= λ i.
                  some (collect key_of key_end (drop i (C.elements s))))))

  step_back-lower_bound :
      (s : C.Store) (a : K)
      → step_back s a (C.lower_bound a s) ≡ some (leading key_of a (C.elements s))
  unfolding step_back
  step_back-lower_bound s a =
      rw (C.lower_bound-leading a s) (from (leading key_of a (C.elements s)) refl)
    where
      from : (n : ℕ) → leading key_of a (C.elements s) ≡ n → step_back s a n ≡ some n
      from zero h = refl
      from (suc i) h =
          let (e, at, low) = leading-prev key_of a (C.elements s) i h in rw (at, low) refl

  search_many :
      (single : K → K → Bool) (s : C.Store) (a b : K)
      → (length (C.elements s) == 0) ≡ false
      → (length (C.elements s) == 1) ≡ false
      → local_contains_in_server single s a b ≡ some (filter (between key_of a b) (C.elements s))
  unfolding local_contains_in_server
  search_many single s a b p q =
      let xs = C.elements s in
      let lb : C.lower_bound a s ≡ leading key_of a xs = C.lower_bound-leading a s in
      let found = collect-drop key_of a b xs (C.elements-sorted s) in
      elim (Bool-cases (C.lower_bound a s == length xs)) [
        | inl past ↦
            rw (p, q, past)
              (ap some (sym (nothing_left key_of a b xs (sym lb ∙ (==_iff _ _).0 past) found)))
        | inr here ↦ rw (p, q, here, step_back-lower_bound s a, found) refl
      ]

  -- what a single element is tested for
  abbrev pub only : (K → K → Bool) → K → K → List E → List E
  only single key_start key_end xs =
      if length xs == 1
      then filter (λ e. single (key_of e) key_start) xs
      else filter (between key_of key_start key_end) xs

  pub local_contains-only :
      (single : K → K → Bool) (s : C.Store) (a b : K)
      → local_contains_in_server single s a b ≡ some (only single a b (C.elements s))
  unfolding local_contains_in_server filter
  local_contains-only single s a b = cases (C.elements s) refl
    where
      cases :
          (xs : List E)
          → C.elements s ≡ xs
          → local_contains_in_server single s a b ≡ some (only single a b xs)
      cases [] e = rw e refl
      cases (x ∷ []) e = rw e refl
      cases (x ∷ y ∷ zs) e = rw (two x y zs) (
          subst (λ l. local_contains_in_server single s a b ≡ some (filter (between key_of a b) l))
            e (search_many single s a b (rw e (ground arith)) (rw e (two x y zs))))
        where
          two : (x y : E) (zs : List E) → (length (x ∷ y ∷ zs) == 1) ≡ false
          two x y zs = ground arith
