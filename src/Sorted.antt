-- ===== src/Sorted.antt =====
-- boost::interprocess::set and map, which the ordered containers keep in their segments: an interface
-- with what Boost documents of them, and sorted lists as one container that meets it. Lists has the
-- lemmas on sorted lists; Range models the search for a range of keys that set and map share
-- (LocalContainsInServer of include/hcl/set/set.cpp and include/hcl/map/map.cpp).
pub mod Lists
pub mod Range
use hcl.Base.{
  ◌∙◌, ℕ, ◌≡◌, refl, Bool, true, false, ◌&&◌, not, List, [], ◌∷◌, Option, some, none, is_some,
  to_nat, if◌then◌else◌, arith,
}
use hcl.HashKey.{HashKey, SortKey, ◌≈◌}
use hcl.Sorted.Lists.{
  search, search_congr, sorted, leading, put, remove, sorted-put, search-put, search-assign,
  sorted-remove, search-remove,
}

-- all but the first element
abbrev pub tail {ℓ} : {A : Type ℓ} → List A → List A
tail [] = []
tail (x ∷ xs) = xs

-- A container of elements with a key each. An iterator is its distance from begin(); `elements` is what
-- it meets on the way to end().
pub record SortedContainer {E K : Type 0} ⦃key : HashKey K⦄ ⦃sort : SortKey K⦄ (key_of : E → K)
    : Type 1 where
  pub Store : Type 0
  pub empty : Store
  pub elements : Store → List E
  pub insert : E → Store → Store
  pub insert_or_assign : E → Store → Store
  pub erase : K → Store → ℕ × Store
  pub erase_begin : Store → Store
  pub find : K → Store → Option E
  pub lower_bound : K → Store → ℕ
  pub elements-empty : elements empty ≡ []
  pub elements-sorted : (s : Store) → sorted key_of (elements s) ≡ true
  pub find-search : (k : K) (s : Store) → find k s ≡ search key_of k (elements s)
  pub find-insert :
      (e : E) (s : Store) (q : K)
      → find q (insert e s)
        ≡ (if (key_of e ≈ q) && not (is_some (find (key_of e) s)) then some e else find q s)
  pub find-insert_or_assign :
      (e : E) (s : Store) (q : K)
      → find q (insert_or_assign e s) ≡ (if key_of e ≈ q then some e else find q s)
  pub erased : (k : K) (s : Store) → (erase k s).0 ≡ to_nat (is_some (find k s))
  pub find-erase :
      (k : K) (s : Store) (q : K) → find q (erase k s).1 ≡ (if k ≈ q then none else find q s)
  pub elements-erase_begin : (s : Store) → elements (erase_begin s) ≡ tail (elements s)
  pub lower_bound-leading : (k : K) (s : Store) → lower_bound k s ≡ leading key_of k (elements s)

module _ {E K : Type 0} ⦃key : HashKey K⦄ ⦃sort : SortKey K⦄ (key_of : E → K) where
  pub sorted-nil : sorted key_of [] ≡ true
  unfolding sorted
  sorted-nil = refl

  pub sorted-tail : (xs : List E) → sorted key_of xs ≡ true → sorted key_of (tail xs) ≡ true
  unfolding sorted
  sorted-tail [] s = refl
  sorted-tail (x ∷ xs) s = ground arith

  abbrev pub Sorted : Type 0
  Sorted = (xs : List E) × (sorted key_of xs ≡ true)

  -- sorted lists are such a container
  abbrev pub sorted_list : SortedContainer key_of
  sorted_list = record {
    Store = Sorted;
    empty = ([], sorted-nil);
    elements = λ s. s.0;
    insert = λ e s. (put key_of false e s.0, sorted-put key_of false e s.0 s.1);
    insert_or_assign = λ e s. (put key_of true e s.0, sorted-put key_of true e s.0 s.1);
    erase = λ k s. (
      to_nat (is_some (search key_of k s.0)),
      (remove key_of k s.0, sorted-remove key_of k s.0 s.1),
    );
    erase_begin = λ s. (tail s.0, sorted-tail s.0 s.1);
    find = λ k s. search key_of k s.0;
    lower_bound = λ k s. leading key_of k s.0;
    elements-empty = refl;
    elements-sorted = λ s. s.1;
    find-search = λ k s. refl;
    find-insert = λ e s q. search-put key_of false e s.0 q s.1;
    find-insert_or_assign = λ e s q. search-assign key_of e s.0 q s.1;
    erased = λ k s. refl;
    find-erase = λ k s q. search-remove key_of k s.0 q s.1;
    elements-erase_begin = λ s. refl;
    lower_bound-leading = λ k s. refl;
  }

module _ {E K : Type 0} ⦃key : HashKey K⦄ ⦃sort : SortKey K⦄ {key_of : E → K}
    (C : SortedContainer key_of) where
  pub find_congr : (k q : K) (s : C.Store) → (k ≈ q) ≡ true → C.find k s ≡ C.find q s
  find_congr k q s e =
      rw (C.find-search k s, C.find-search q s) (search_congr key_of k q (C.elements s) e)
