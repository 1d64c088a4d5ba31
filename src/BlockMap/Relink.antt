-- ===== src/BlockMap/Relink.antt =====
-- The chains that insert and erase leave behind: still sorted, still without a second node for a key,
-- and changed at the one key.
use hcl.Base.{
  is_some, ℕ, ◌≤◌, ◌≡◌, refl, Bool, true, false, ◌||◌, List, [], ◌∷◌, ◌++◌, some, none,
  if◌then◌else◌, arith,
}
use hcl.HashKey.{HashKey, ◌≈◌, ≈_congr, ≈_comm}
use hcl.BlockMap.{Node, insert_walk, erase_walk}
use hcl.BlockMap.Chain.{value_of, Above, IsChain, value_of-Above, value_of_congr}

module _ {K V : Type 0} ⦃key : HashKey K⦄ where
  pub insert_walk-found :
      (k : K) (found : Bool) (ns : List (Node K V))
      → IsChain ns
      → (insert_walk k found ns).0 ≡ found || is_some (value_of k ns)
  unfolding insert_walk value_of
  insert_walk-found k found [] c = ground arith
  insert_walk-found k found (n ∷ ns) c = ground (
    arith,
    insert_walk-found k found ns c.2,
    insert_walk-found k true ns c.2,
    value_of-Above k (key.hash n.key) ns,
    value_of_congr n.key k ns,
  )

  pub insert_walk-append :
      (k : K) (found : Bool) (ns : List (Node K V))
      → (insert_walk k found ns).1 ++ (insert_walk k found ns).2 ≡ ns
  unfolding insert_walk
  insert_walk-append k found [] = refl
  insert_walk-append k found (n ∷ ns) =
      ground (arith, insert_walk-append k found ns, insert_walk-append k true ns)

  -- the chain that insert links
  abbrev pub linked : Node K V → Bool → List (Node K V) → List (Node K V)
  linked new found ns = (insert_walk new.key found ns).1 ++ (new ∷ (insert_walk new.key found ns).2)

  pub linked-value_of :
      (new : Node K V) (found : Bool) (ns : List (Node K V)) (q : K)
      → value_of new.key ns ≡ none
      → value_of q (linked new found ns) ≡ (if new.key ≈ q then some new.value else value_of q ns)
  unfolding insert_walk value_of
  linked-value_of new found [] q e = ground arith
  linked-value_of new found (n ∷ ns) q e = ground (
    arith,
    linked-value_of new found ns q,
    linked-value_of new true ns q,
    ≈_congr new.key q n.key,
    ≈_comm n.key new.key,
    ≈_comm n.key q,
  )

  linked-Above :
      (new : Node K V) (found : Bool) (h : ℕ) (ns : List (Node K V))
      → Above h ns
      → h ≤ key.hash new.key
      → Above h (linked new found ns)
  unfolding insert_walk
  linked-Above new found h [] a le = (le, tt)
  linked-Above new found h (n ∷ ns) a le =
      ground (arith, linked-Above new found h ns a.1, linked-Above new true h ns a.1)

  Above-le : (h i : ℕ) (ns : List (Node K V)) → i ≤ h → Above h ns → Above i ns
  Above-le h i [] le a = a
  Above-le h i (n ∷ ns) le a = (omega arith, Above-le h i ns le a.1)

  pub linked-IsChain :
      (new : Node K V) (found : Bool) (ns : List (Node K V))
      → IsChain ns
      → value_of new.key ns ≡ none
      → IsChain (linked new found ns)
  unfolding insert_walk value_of
  linked-IsChain new found [] c e = (tt, refl, tt)
  linked-IsChain new found (n ∷ ns) c e = ground (
    arith,
    linked-IsChain new found ns c.2,
    linked-IsChain new true ns c.2,
    linked-Above new found (key.hash n.key) ns c.0,
    linked-Above new true (key.hash n.key) ns c.0,
    linked-value_of new found ns n.key,
    linked-value_of new true ns n.key,
    Above-le (key.hash n.key) (key.hash new.key) ns,
    ≈_comm n.key new.key,
  )

  -- the chain that erase leaves, and the node that it takes out
  abbrev pub tail : List (Node K V) → List (Node K V)
  tail [] = []
  tail (n ∷ ns) = ns

  abbrev pub met : K → List (Node K V) → Bool
  met k [] = false
  met k (n ∷ ns) = n.key ≈ k

  abbrev pub unlinked : K → List (Node K V) → List (Node K V)
  unlinked k ns = (erase_walk k ns).0 ++ tail (erase_walk k ns).1

  pub erase_walk-append :
      (k : K) (ns : List (Node K V)) → (erase_walk k ns).0 ++ (erase_walk k ns).1 ≡ ns
  unfolding erase_walk
  erase_walk-append k [] = refl
  erase_walk-append k (n ∷ ns) = ground (arith, erase_walk-append k ns)

  pub erase_walk-met :
      (k : K) (ns : List (Node K V))
      → IsChain ns
      → met k (erase_walk k ns).1 ≡ is_some (value_of k ns)
  unfolding erase_walk value_of
  erase_walk-met k [] c = refl
  erase_walk-met k (n ∷ ns) c =
      ground (arith, erase_walk-met k ns c.2, value_of-Above k (key.hash n.key) ns)

  pub unlinked-value_of :
      (k : K) (ns : List (Node K V)) (q : K)
      → IsChain ns
      → met k (erase_walk k ns).1 ≡ true
      → value_of q (unlinked k ns) ≡ (if k ≈ q then none else value_of q ns)
  unfolding erase_walk value_of
  unlinked-value_of k [] q c m = cc
  unlinked-value_of k (n ∷ ns) q c m = ground (
    arith,
    unlinked-value_of k ns q c.2,
    value_of_congr n.key q ns,
    ≈_congr n.key k q,
    ≈_congr k q n.key,
    ≈_comm n.key k,
    ≈_comm n.key q,
  )

  unlinked-Above : (k : K) (h : ℕ) (ns : List (Node K V)) → Above h ns → Above h (unlinked k ns)
  unfolding erase_walk
  unlinked-Above k h [] a = a
  unlinked-Above k h (n ∷ ns) a = ground (arith, unlinked-Above k h ns a.1)

  pub unlinked-IsChain :
      (k : K) (ns : List (Node K V))
      → IsChain ns
      → met k (erase_walk k ns).1 ≡ true
      → IsChain (unlinked k ns)
  unfolding erase_walk
  unlinked-IsChain k [] c m = c
  unlinked-IsChain k (n ∷ ns) c m = ground (
    arith,
    unlinked-IsChain k ns c.2,
    unlinked-Above k (key.hash n.key) ns c.0,
    unlinked-value_of k ns n.key c.2,
  )
