-- ===== src/Multimap/OneServer.antt =====
-- LocalContainsInServer of the multimap: what one server answers, whatever its elements are, and where they
-- stand in ascending order.
use hcl.Base.{
  to_nat, ℕ, zero, suc, ◌≡◌, ◌≤◌, ◌<◌, refl, sym, ap, ◌∙◌, Bool, true, not, List, [], ◌∷◌, some,
  length, get_elem?, get_elem?-total, drop, drop-length, filter, hits, arith, inl, inr, Bool-cases,
  if◌then◌else◌, ◌==◌, ==_iff,
}
use mathlib.Core.Option.{some-injective}
use hcl.HashKey.{HashKey, SortKey, ◌≺◌}
use hcl.Multimap.{MultiContainer, related, collect, step_back, local_contains}
use hcl.Multimap.InFront.{
  in_front, below, in_front-zero, in_front-suc, in_front-all, collect-none_below, collect-first,
}
use hcl.Multimap.Ascending.{
  ascending, lower, Convex, wanted, drop-at_least, drop-cons, lower-prev, collect-wanted,
  drop-wanted,
}

module _ {K V : Type 0} ⦃key : HashKey K⦄ ⦃sort : SortKey K⦄ (C : MultiContainer K V)
    (covers : K → K → Bool) where
  -- The elements of a server stand in ascending order, and lower_bound counts those below the key.
  pub record IsOrdered (k : K) (s : C.Store) : Type 0 where
    pub order : ascending (C.elements s) ≡ true
    pub bound : C.lower_bound k s ≡ lower k (C.elements s)

  collect-related :
      (k : K) (es : List (K × V))
      → hits (λ e. not (related C covers k e)) (collect C covers k es) ≡ 0
  unfolding collect filter
  collect-related k [] = refl
  collect-related k ((j, v) ∷ es) = ground (arith, collect-related k es)

  collect-fewer :
      (k : K) (p : K × V → Bool) (es : List (K × V)) → hits p (collect C covers k es) ≤ hits p es
  unfolding collect filter
  collect-fewer k p [] = omega arith
  collect-fewer k p ((j, v) ∷ es) = ground (arith, collect-fewer k p es)

  drop-fewer : (p : K × V → Bool) (i : ℕ) (es : List (K × V)) → hits p (drop i es) ≤ hits p es
  unfolding drop filter
  drop-fewer p zero es = omega arith
  drop-fewer p (suc i) [] = omega arith
  drop-fewer p (suc i) (e ∷ es) = ground (arith, drop-fewer p i es)

  -- the elements below the key that a server answers
  unfoldable pub below_part : K → C.Store → List (K × V)
  below_part k s =
      if length (C.elements s) == 1 then C.elements s else in_front C covers k (C.elements s)

  -- What one server answers: elements of its own that are related to the key, if it has not just one
  -- element, and all those that are not below the key.
  unfoldable pub Answers : K → C.Store → List (K × V) → Type 0
  Answers k s out =
      (local_contains C covers k s ≡ some (out, s))
      × ((p : K × V → Bool) → hits p out ≤ hits p (C.elements s))
      × (hits (λ e. not (related C covers k e)) out ≤ to_nat (length (C.elements s) == 1))
      × (IsOrdered k s
          → Convex C covers k
          → (p : K × V → Bool)
          → hits (wanted C covers k p) out ≡ hits (wanted C covers k p) (C.elements s))
      × (IsOrdered k s
          → (p : K × V → Bool)
          → hits (below C covers k p) out ≡ hits (below C covers k p) (below_part k s))

  head-fewer :
      (p : K × V → Bool) (e : K × V) (es : List (K × V))
      → get_elem? es 0 ≡ some e
      → hits p (e ∷ []) ≤ hits p es
  unfolding filter
  head-fewer p e [] at = absurd (cc)
  head-fewer p e (x ∷ es) at = rw (some-injective x e at) (ground arith)

  only : (e : K × V) (es : List (K × V)) → length es ≡ 1 → get_elem? es 0 ≡ some e → e ∷ [] ≡ es
  only e [] one at = absurd (cc)
  only e (x ∷ []) one at = ap (λ y. y ∷ []) (sym (some-injective x e at))
  only e (x ∷ y ∷ es) one at = absurd (omega (arith, one))

  -- where the loop begins, and what it finds from there
  abbrev Steps : K → C.Store → ℕ → Type 0
  Steps k s n =
      (i : ℕ) × (step_back C covers k s n ≡ some i)
      × (ascending (C.elements s) ≡ true
          → n ≡ lower k (C.elements s)
          → Convex C covers k
          → (p : K × V → Bool)
          → hits (wanted C covers k p) (collect C covers k (drop i (C.elements s)))
            ≡ hits (wanted C covers k p) (C.elements s))
      × (ascending (C.elements s) ≡ true
          → n ≡ lower k (C.elements s)
          → n < length (C.elements s)
          → (p : K × V → Bool)
          → hits (below C covers k p) (collect C covers k (drop i (C.elements s)))
            ≡ hits (below C covers k p) (in_front C covers k (C.elements s)))

  from_lower :
      (k : K) (s : C.Store) (n : ℕ)
      → ascending (C.elements s) ≡ true
      → n ≡ lower k (C.elements s)
      → Convex C covers k
      → (p : K × V → Bool)
      → hits (wanted C covers k p) (collect C covers k (drop n (C.elements s)))
        ≡ hits (wanted C covers k p) (C.elements s)
  from_lower k s n order here convex p =
      let (floor, rest) = drop-at_least k (C.elements s) order in
      rw here (
        collect-wanted C covers k convex p (drop (lower k (C.elements s)) (C.elements s)) floor rest
        ∙ drop-wanted C covers k p (C.elements s))

  -- an element below the key does not count
  collect-below :
      (k : K) (p : K × V → Bool) (e : K × V) (es : List (K × V))
      → (e.0 ≺ k) ≡ true
      → covers k e.0 ≡ true
      → hits (wanted C covers k p) (collect C covers k (e ∷ es))
        ≡ hits (wanted C covers k p) (collect C covers k es)
  unfolding collect filter
  collect-below k p (j, v) es low covered = ground (arith, low, covered)

  none_in_front :
      (k : K) (s : C.Store) (n : ℕ)
      → in_front C covers k (C.elements s) ≡ []
      → ascending (C.elements s) ≡ true
      → n ≡ lower k (C.elements s)
      → (p : K × V → Bool)
      → hits (below C covers k p) (collect C covers k (drop n (C.elements s)))
        ≡ hits (below C covers k p) (in_front C covers k (C.elements s))
  unfolding filter
  none_in_front k s n nothing order here p =
      let (floor, rest) = drop-at_least k (C.elements s) order in
      rw (here, nothing)
        (collect-none_below C covers k p (drop (lower k (C.elements s)) (C.elements s)) floor)

  stepped : (k : K) (s : C.Store) (n : ℕ) → n ≤ length (C.elements s) → Steps k s n
  unfolding step_back
  stepped k s zero le = (
    0,
    refl,
    from_lower k s 0,
    λ order here lt p.
        none_in_front k s 0 (in_front-zero C covers k (C.elements s) order (sym here)) order here p,
  )
  stepped k s (suc n) le =
      let es = C.elements s in
      let (e, at) = get_elem?-total es n (omega arith) in
      elim (Bool-cases (covers k e.0)) [
        | inr apart ↦ (
          suc n,
          rw (at, apart) refl,
          from_lower k s (suc n),
          λ order here lt p.
              none_in_front k s (suc n)
                (in_front-suc C covers k es n e (sym here) lt at ∙ rw apart refl) order here p,
        )
        | inl covered ↦ (
          n,
          rw (at, covered) refl,
          λ order here convex p. rw (drop-cons n es e at) (
              collect-below k p e (drop (suc n) es) (lower-prev k es n e (sym here) at) covered
              ∙ from_lower k s (suc n) order here convex p),
          λ order here lt p. rw (drop-cons n es e at) (
              collect-first C covers k p e (drop (suc n) es) covered
                (rw (sym here) at (drop-at_least k es order).0)
              ∙ ap (hits (below C covers k p))
                  (sym (in_front-suc C covers k es n e (sym here) lt at ∙ rw covered refl))),
        )
      ]

  pub answers : (k : K) (s : C.Store) → (out : List (K × V)) × Answers k s out
  unfolding local_contains Answers filter below_part in_front
  answers k s = elim (Bool-cases (length (C.elements s) == 0)) [
    | inl empty ↦
        let none_there = nil (C.elements s) ((==_iff _ _).0 empty) in
        (
          [],
          (
            rw (local_contains, empty) refl,
            λ p. omega arith,
            omega arith,
            λ ordered convex p. rw none_there refl,
            λ ordered p. rw none_there refl,
          ),
        )
    | inr held ↦ elim (Bool-cases (length (C.elements s) == 1)) [
      | inl one ↦
          let (e, at) = get_elem?-total (C.elements s) 0 (ground arith) in
          (
            e ∷ [],
            (
              rw (local_contains, held, one, at) refl,
              λ p. head-fewer p e (C.elements s) at,
              rw one (ground arith),
              λ ordered convex p.
                  ap (hits (wanted C covers k p)) (only e (C.elements s) ((==_iff _ _).0 one) at),
              λ ordered p.
                  rw one (
                    ap (hits (below C covers k p)) (only e (C.elements s) ((==_iff _ _).0 one) at)),
            ),
          )
      | inr many ↦ elim (Bool-cases (C.lower_bound k s == length (C.elements s))) [
        | inl past ↦ (
          [],
          (
            rw (local_contains, held, many, past) refl,
            λ p. omega arith,
            omega arith,
            λ ordered convex p.
                past_all k p (C.elements s) (sym ordered.bound ∙ (==_iff _ _).0 past),
            λ ordered p.
                rw
                  (
                    many,
                    in_front-all C covers k (C.elements s)
                        (sym ordered.bound ∙ (==_iff _ _).0 past),
                  )
                  refl,
          ),
        )
        | inr here ↦
            let (i, back, counts, belows) =
              stepped k s (C.lower_bound k s) (C.lower_bound-le k s) in
            let rest = drop i (C.elements s) in
            (
              collect C covers k rest,
              (
                rw (local_contains, held, many, here, back) refl,
                λ p. omega (arith, collect-fewer k p rest, drop-fewer p i (C.elements s)),
                omega (arith, collect-related k rest),
                λ ordered convex p. counts ordered.order ordered.bound convex p,
                λ ordered p. rw many (
                    belows ordered.order ordered.bound (ground (arith, here, C.lower_bound-le k s))
                      p),
              ),
            )
      ]
    ]
  ]
    where
      nil : (es : List (K × V)) → length es ≡ 0 → es ≡ []
      nil [] e = refl
      nil (x ∷ es) e = absurd (omega (arith, e))

      past_all :
          (k : K) (p : K × V → Bool) (es : List (K × V))
          → lower k es ≡ length es
          → 0 ≡ hits (wanted C covers k p) es
      past_all k p es e =
          sym (ap (hits (wanted C covers k p)) (ap (λ n. drop n es) e ∙ drop-length es))
          ∙ drop-wanted C covers k p es
