-- ===== src/Multimap/InFront.antt =====
-- The element that LocalContainsInServer steps back to.
use hcl.Base.{
  ℕ, zero, suc, ◌≡◌, ◌<◌, refl, ap, Bool, true, false, ◌&&◌, List, [], ◌∷◌, some, length, get_elem?,
  filter, hits, arith, if◌then◌else◌,
}
use mathlib.Core.Option.{some-injective}
use hcl.HashKey.{HashKey, SortKey, ◌≺◌}
use hcl.Sorted.Lists.{leading}
use hcl.Multimap.{MultiContainer, collect}
use hcl.Multimap.Ascending.{at_least, ascending, lower, not_less_trans}

module _ {K V : Type 0} ⦃key : HashKey K⦄ ⦃sort : SortKey K⦄ (C : MultiContainer K V)
    (covers : K → K → Bool) (k : K) where
  -- the last element below the key, if one that is not below comes next, and if the key covers it
  unfoldable pub in_front : List (K × V) → List (K × V)
  in_front [] = []
  in_front (e ∷ []) = []
  in_front (e ∷ f ∷ es) =
      let rest = in_front (f ∷ es) in
      if f.0 ≺ k then rest else (if (e.0 ≺ k) && covers k e.0 then e ∷ [] else [])

  -- the elements below the key, of those that pass `p`
  abbrev pub below : (K × V → Bool) → K × V → Bool
  below p e = p e && (e.0 ≺ k)

  pub in_front-zero : (es : List (K × V)) → ascending es ≡ true → lower k es ≡ 0 → in_front es ≡ []
  unfolding in_front ascending at_least leading
  in_front-zero [] a z = refl
  in_front-zero (e ∷ []) a z = refl
  in_front-zero ((j, v) ∷ (i, w) ∷ es) a z = ground (arith, not_less_trans i j k)

  pub in_front-suc :
      (es : List (K × V)) (n : ℕ) (e : K × V)
      → lower k es ≡ suc n
      → suc n < length es
      → get_elem? es n ≡ some e
      → in_front es ≡ (if covers k e.0 then e ∷ [] else [])
  unfolding in_front leading
  in_front-suc [] n e z lt at = absurd (omega arith)
  in_front-suc (x ∷ []) n e z lt at = absurd (omega arith)
  in_front-suc ((j, v) ∷ (i, w) ∷ es) zero e z lt at =
      let low : (j ≺ k) ≡ true = ground arith in
      let high : (i ≺ k) ≡ false = ground arith in
      rw (high, low)
        (ap (λ (x : K × V). if covers k x.0 then x ∷ [] else []) (some-injective (j, v) e at))
  in_front-suc ((j, v) ∷ (i, w) ∷ es) (suc n) e z lt at =
      let low : (i ≺ k) ≡ true = ground arith in
      rw low (in_front-suc ((i, w) ∷ es) n e (ground arith) (omega arith) at)

  pub in_front-all : (es : List (K × V)) → lower k es ≡ length es → in_front es ≡ []
  unfolding in_front leading
  in_front-all [] z = refl
  in_front-all (e ∷ []) z = refl
  in_front-all ((j, v) ∷ (i, w) ∷ es) z =
      let low : (i ≺ k) ≡ true = ground arith in rw low (in_front-all ((i, w) ∷ es) (ground arith))

  pub collect-none_below :
      (p : K × V → Bool) (es : List (K × V))
      → at_least k es ≡ true
      → hits (below p) (collect C covers k es) ≡ 0
  unfolding collect filter at_least
  collect-none_below p [] a = refl
  collect-none_below p ((j, v) ∷ es) a = ground (arith, collect-none_below p es)

  pub collect-first :
      (p : K × V → Bool) (e : K × V) (es : List (K × V))
      → covers k e.0 ≡ true
      → at_least k es ≡ true
      → hits (below p) (collect C covers k (e ∷ es)) ≡ hits (below p) (e ∷ [])
  unfolding collect filter
  collect-first p (j, v) es covered a = ground (arith, covered, collect-none_below p es a)
