-- ===== src/Multimap/Ascending.antt =====
-- Elements in the ascending order of their keys, as an iterator of the multimap meets them, and the loop of
-- LocalContainsInServer on them.
use hcl.Base.{
  ℕ, zero, suc, ◌≡◌, refl, sym, ap, ◌∙◌, Bool, true, false, ◌&&◌, ◌||◌, not, List, [], ◌∷◌, some,
  get_elem?, drop, filter, hits, arith, Bool-cases, inl, inr,
}
use mathlib.Core.Option.{some-injective}
use hcl.HashKey.{HashKey, SortKey, ◌≺◌, ≺_congr_left}
use hcl.Sorted.Lists.{leading}
use hcl.Multimap.{MultiContainer, collect}

module _ {K : Type 0} ⦃key : HashKey K⦄ ⦃sort : SortKey K⦄ where
  pub not_less_trans : (i j k : K) → (j ≺ k) ≡ false → (i ≺ j) ≡ false → (i ≺ k) ≡ false
  not_less_trans i j k e e' =
      ground (arith, sort.equal-less j i, sort.less_trans j i k, ≺_congr_left j i k)

module _ {K V : Type 0} ⦃key : HashKey K⦄ ⦃sort : SortKey K⦄ where
  unfoldable pub at_least : K → List (K × V) → Bool
  at_least k [] = true
  at_least k ((j, v) ∷ es) = not (j ≺ k) && at_least k es

  unfoldable pub ascending : List (K × V) → Bool
  unfolding at_least
  ascending [] = true
  ascending ((j, v) ∷ es) = at_least j es && ascending es

  abbrev pub lower : K → List (K × V) → ℕ
  lower k es = leading (λ (e : K × V). e.0) k es

  at_least_trans :
      (k j : K) (es : List (K × V)) → (j ≺ k) ≡ false → at_least j es ≡ true → at_least k es ≡ true
  unfolding at_least
  at_least_trans k j [] e a = refl
  at_least_trans k j ((i, v) ∷ es) e a =
      ground (arith, at_least_trans k j es e, not_less_trans i j k e)

  pub drop-at_least :
      (k : K) (es : List (K × V))
      → ascending es ≡ true
      → (at_least k (drop (lower k es) es) ≡ true) × (ascending (drop (lower k es) es) ≡ true)
  unfolding at_least ascending leading drop
  drop-at_least k [] a = (refl, refl)
  drop-at_least k ((j, v) ∷ es) a = elim (Bool-cases (j ≺ k)) [
    | inl low ↦ rw low (drop-at_least k es (ground arith))
    | inr high ↦ rw (high, high) (ground (arith, at_least_trans k j es high), a)
  ]

  pub drop-cons :
      (m : ℕ) (es : List (K × V)) (e : K × V)
      → get_elem? es m ≡ some e
      → drop m es ≡ e ∷ drop (suc m) es
  unfolding drop
  drop-cons zero [] e at = absurd (cc)
  drop-cons zero (x ∷ es) e at = ap (λ y. y ∷ es) (some-injective x e at)
  drop-cons (suc m) [] e at = absurd (cc)
  drop-cons (suc m) (x ∷ es) e at = drop-cons m es e at

  -- the element in front of the first one that is not below the key
  pub lower-prev :
      (k : K) (es : List (K × V)) (m : ℕ) (e : K × V)
      → lower k es ≡ suc m
      → get_elem? es m ≡ some e
      → (e.0 ≺ k) ≡ true
  unfolding leading
  lower-prev k [] m e here at = absurd (omega arith)
  lower-prev k ((j, v) ∷ es) zero e here at =
      ap (λ (x : K × V). x.0 ≺ k) (sym (some-injective (j, v) e at)) ∙ (ground arith)
  lower-prev k ((j, v) ∷ es) (suc m) e here at = lower-prev k es m e (ground arith) at

module _ {K V : Type 0} ⦃key : HashKey K⦄ ⦃sort : SortKey K⦄ (C : MultiContainer K V)
    (covers : K → K → Bool) (k : K) where
  -- a key between the argument and one that is related to it is related to it too
  unfoldable pub Convex : Type 0
  Convex =
      (i j : K)
      → (i ≺ k) ≡ false
      → (j ≺ i) ≡ false
      → (covers k j || covers j k) ≡ true
      → (covers k i || covers i k) ≡ true

  -- the elements that are related to the key and not below it, of those that pass `p`
  abbrev pub wanted : (K × V → Bool) → K × V → Bool
  wanted p e = p e && (not (e.0 ≺ k) && (covers k e.0 || covers e.0 k))

  module _ (convex : Convex) (p : K × V → Bool) where
    none_wanted :
        (j : K) (es : List (K × V))
        → (j ≺ k) ≡ false
        → (covers k j || covers j k) ≡ false
        → at_least j es ≡ true
        → hits (wanted p) es ≡ 0
    unfolding filter at_least Convex
    none_wanted j [] high apart a = refl
    none_wanted j ((i, v) ∷ es) high apart a =
        ground (arith, none_wanted j es high apart, convex j i high)

    pub collect-wanted :
        (es : List (K × V))
        → at_least k es ≡ true
        → ascending es ≡ true
        → hits (wanted p) (collect C covers k es) ≡ hits (wanted p) es
    unfolding filter at_least ascending collect
    collect-wanted [] a s = refl
    collect-wanted ((j, v) ∷ es) a s = ground (arith, collect-wanted es, none_wanted j es)

  pub drop-wanted :
      (p : K × V → Bool) (es : List (K × V))
      → hits (wanted p) (drop (lower k es) es) ≡ hits (wanted p) es
  unfolding filter leading drop
  drop-wanted p [] = refl
  drop-wanted p ((j, v) ∷ es) = elim (Bool-cases (j ≺ k)) [
    | inl low ↦ rw low (ground (arith, drop-wanted p es))
    | inr high ↦ ground (arith, high)
  ]
