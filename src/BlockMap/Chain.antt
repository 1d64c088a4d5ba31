-- ===== src/BlockMap/Chain.antt =====
-- The loops over one chain, against the value that the chain gives a key: in a chain that is sorted
-- by hash and holds no key twice, stopping at the first larger hash misses nothing.
use hcl.Base.{
  is_some, ℕ, ◌≤◌, ◌<◌, ◌≡◌, refl, Bool, true, ◌||◌, List, [], ◌∷◌, Option, some, none,
  if◌then◌else◌, arith,
}
use hcl.HashKey.{HashKey, ◌≈◌, ≈_congr, ≈_comm, ≈-hash}
use hcl.BlockMap.{Node, find_walk, update_walk, get_walk}

module _ {K V : Type 0} ⦃key : HashKey K⦄ where
  -- the value of a key: that of the first node that holds it
  unfoldable pub value_of : K → List (Node K V) → Option V
  value_of k [] = none
  value_of k (n ∷ ns) = if n.key ≈ k then some n.value else value_of k ns

  -- every hash is at least `h`
  abbrev pub Above : ℕ → List (Node K V) → Type 0
  Above h [] = Unit
  Above h (n ∷ ns) = (h ≤ key.hash n.key) × Above h ns

  -- sorted by hash, and no key twice
  abbrev pub IsChain : List (Node K V) → Type 0
  IsChain [] = Unit
  IsChain (n ∷ ns) = Above (key.hash n.key) ns × (value_of n.key ns ≡ none) × IsChain ns

  pub value_of-Above :
      (k : K) (h : ℕ) (ns : List (Node K V)) → key.hash k < h → Above h ns → value_of k ns ≡ none
  unfolding value_of
  value_of-Above k h [] lt a = refl
  value_of-Above k h (n ∷ ns) lt a = ground (arith, value_of-Above k h ns lt, ≈-hash n.key k)

  pub value_of_congr :
      (k q : K) (ns : List (Node K V)) → (k ≈ q) ≡ true → value_of k ns ≡ value_of q ns
  unfolding value_of
  value_of_congr k q [] e = refl
  value_of_congr k q (n ∷ ns) e =
      ground (arith, value_of_congr k q ns e, ≈_congr k q n.key e, ≈_comm n.key k, ≈_comm n.key q)

  pub find_walk-value_of :
      (k : K) (found : Bool) (ns : List (Node K V))
      → IsChain ns
      → find_walk k found ns ≡ found || is_some (value_of k ns)
  unfolding find_walk value_of
  find_walk-value_of k found [] c = ground arith
  find_walk-value_of k found (n ∷ ns) c = ground (
    arith,
    find_walk-value_of k found ns c.2,
    find_walk-value_of k true ns c.2,
    value_of-Above k (key.hash n.key) ns,
    value_of_congr n.key k ns,
  )

  pub get_walk-value_of :
      (k : K) (found : Bool) (v : V) (ns : List (Node K V))
      → IsChain ns
      → get_walk k found v ns ≡ elim (value_of k ns) [ none ↦ (found, v) | some w ↦ (true, w) ]
  unfolding get_walk value_of
  get_walk-value_of k found v [] c = ground arith
  get_walk-value_of k found v (n ∷ ns) c = ground (
    arith,
    get_walk-value_of k found v ns c.2,
    get_walk-value_of k true n.value ns c.2,
    value_of-Above k (key.hash n.key) ns,
    value_of_congr n.key k ns,
  )

  pub update_walk-value_of :
      (k : K) (fn : V → V) (found : Bool) (ns : List (Node K V)) (q : K)
      → IsChain ns
      → value_of q (update_walk k fn found ns).1
        ≡ elim (value_of q ns) [ none ↦ none | some w ↦ some (if k ≈ q then fn w else w) ]
  unfolding update_walk value_of
  update_walk-value_of k fn found [] q c = refl
  update_walk-value_of k fn found (n ∷ ns) q c = ground (
    arith,
    update_walk-value_of k fn found ns q c.2,
    update_walk-value_of k fn true ns q c.2,
    value_of-Above k (key.hash n.key) ns,
    value_of_congr n.key k ns,
    value_of_congr k q ns,
    ≈_congr n.key k q,
    ≈_congr k q n.key,
    ≈_comm n.key k,
    ≈_comm n.key q,
  )

  pub update_walk-found :
      (k : K) (fn : V → V) (found : Bool) (ns : List (Node K V))
      → IsChain ns
      → (update_walk k fn found ns).0 ≡ found || is_some (value_of k ns)
  unfolding update_walk value_of
  update_walk-found k fn found [] c = ground arith
  update_walk-found k fn found (n ∷ ns) c = ground (
    arith,
    update_walk-found k fn found ns c.2,
    update_walk-found k fn true ns c.2,
    value_of-Above k (key.hash n.key) ns,
    value_of_congr n.key k ns,
  )

  update_walk-Above :
      (k : K) (fn : V → V) (found : Bool) (h : ℕ) (ns : List (Node K V))
      → Above h ns
      → Above h (update_walk k fn found ns).1
  unfolding update_walk
  update_walk-Above k fn found h [] a = a
  update_walk-Above k fn found h (n ∷ ns) a =
      ground (arith, update_walk-Above k fn found h ns a.1, update_walk-Above k fn true h ns a.1)

  pub update_walk-IsChain :
      (k : K) (fn : V → V) (found : Bool) (ns : List (Node K V))
      → IsChain ns
      → IsChain (update_walk k fn found ns).1
  unfolding update_walk
  update_walk-IsChain k fn found [] c = c
  update_walk-IsChain k fn found (n ∷ ns) c = ground (
    arith,
    update_walk-IsChain k fn found ns c.2,
    update_walk-IsChain k fn true ns c.2,
    update_walk-Above k fn found (key.hash n.key) ns c.0,
    update_walk-Above k fn true (key.hash n.key) ns c.0,
    update_walk-value_of k fn found ns n.key c.2,
    update_walk-value_of k fn true ns n.key c.2,
  )
