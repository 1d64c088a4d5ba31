-- ===== src/Multimap/Single.antt =====
-- The local methods of the multimap, where no key has two values: LocalPut erases one before it inserts.
use hcl.Base.{
  ℕ, ◌%◌, ◌≡◌, ◌≤◌, refl, sym, ◌∙◌, ap, Bool, true, false, List, [], ◌∷◌, ◌++◌, Option, some, none,
  is_some, length, length-append, if◌then◌else◌, arith, ltb, lt→ltb, get_elem?, inl, inr,
  Bool-cases,
}
use mathlib.Core.Option.{some-injective}
use hcl.Container.Placed.{replicate, replicate-all, Serves}
use hcl.HashKey.{HashKey, ◌≈◌, ≈-hash}
use hcl.Multimap.Store.{values_in, values_in_congr}
use hcl.Multimap.{MultiContainer, make_room, local_put, local_get, local_erase}

module _ {V : Type 0} where
  abbrev pub value_or : V → Option V → Bool × V
  value_or value_default none = (false, value_default)
  value_or value_default (some v) = (true, v)

  abbrev pub first_of : List V → Option V
  first_of [] = none
  first_of (v ∷ vs) = some v

  -- a list of one value
  only_one :
      (before after : List V) (w : V) → length (before ++ (w ∷ after)) ≤ 1 → before ++ after ≡ []
  only_one [] [] w le = refl
  only_one [] (x ∷ after) w le = absurd (omega arith)
  only_one (x ∷ before) after w le = absurd (omega (arith, length-append before (w ∷ after)))

  first-only_one :
      (before after : List V) (w : V)
      → length (before ++ (w ∷ after)) ≤ 1
      → first_of (before ++ (w ∷ after)) ≡ some w
  first-only_one [] after w le = refl
  first-only_one (x ∷ before) after w le = absurd (omega (arith, length-append before (w ∷ after)))

module _ {K V : Type 0} ⦃key : HashKey K⦄ (C : MultiContainer K V) where
  abbrev pub values : C.Store → K → List V
  values s k = values_in k (C.elements s)

  -- what a server holds for a key, and that it holds no more than one value for each
  abbrev pub value_at : C.Store → K → Option V
  value_at s k = first_of (values s k)

  abbrev pub Single : C.Store → Type 0
  Single s = (k : K) → length (values s k) ≤ 1

  -- LocalPut leaves the new value alone under its key
  make_room-none : (s : C.Store) (k : K) → Single s → values (make_room C k s) k ≡ []
  unfolding make_room
  make_room-none s k single = split (values s k) refl
    where
      split : (vs : List V) → values s k ≡ vs → values (make_room C k s) k ≡ []
      split [] e = rw (make_room, C.find_none k s e) e
      split (v ∷ vs) e =
          let (j, w, before, after, at, all, left) = C.find_some k s v vs e in
          rw (make_room, at)
            (left ∙ only_one before after w (omega (arith, single k, ap length all)))

  make_room-other :
      (s : C.Store) (k q : K) → (k ≈ q) ≡ false → values (make_room C k s) q ≡ values s q
  unfolding make_room
  make_room-other s k q other = split (values s k) refl
    where
      split : (vs : List V) → values s k ≡ vs → values (make_room C k s) q ≡ values s q
      split [] e = rw (make_room, C.find_none k s e) refl
      split (v ∷ vs) e =
          let (j, w, before, after, at, all, left) = C.find_some k s v vs e in
          rw (make_room, at) (C.erase_found-other k s q other)

  put-values :
      (s : C.Store) (k : K) (v : V) (q : K)
      → Single s
      → values (C.insert (k, v) (make_room C k s)) q ≡ (if k ≈ q then v ∷ [] else values s q)
  put-values s k v q single = elim (Bool-cases (k ≈ q)) [
    | inl same ↦
        C.values-insert k v (make_room C k s) q
        ∙ rw same (
            ap (λ vs. vs ++ (v ∷ []))
              (sym (values_in_congr k q (C.elements (make_room C k s)) same)
                ∙ make_room-none s k single))
    | inr other ↦ C.values-insert k v (make_room C k s) q ∙ rw other (make_room-other s k q other)
  ]

  put-Single : (s : C.Store) (k : K) (v : V) → Single s → Single (C.insert (k, v) (make_room C k s))
  put-Single s k v single q = elim (Bool-cases (k ≈ q)) [
    | inl same ↦ rw (put-values s k v q single, same) (omega arith)
    | inr other ↦ rw (put-values s k v q single, other) (single q)
  ]

  erase-Single : (s : C.Store) (k : K) → Single s → Single (C.erase k s).1
  erase-Single s k single q = elim (Bool-cases (k ≈ q)) [
    | inl same ↦ rw (C.values-erase k s q, same) (omega arith)
    | inr other ↦ rw (C.values-erase k s q, other) (single q)
  ]

  local_get-value_at :
      (value_default : V) (s : C.Store) (k : K)
      → Single s
      → local_get C value_default k s ≡ some (value_or value_default (value_at s k), s)
  unfolding local_get
  local_get-value_at value_default s k single = split (values s k) refl
    where
      split :
          (vs : List V)
          → values s k ≡ vs
          → local_get C value_default k s ≡ some (value_or value_default (value_at s k), s)
      split [] e = rw (local_get, C.find_none k s e, e) refl
      split (v ∷ vs) e =
          let (j, w, before, after, at, all, left) = C.find_some k s v vs e in
          rw
            (
              local_get,
              at,
              all,
              first-only_one before after w (omega (arith, single k, ap length all)),
            )
            refl

  -- the server of a key
  abbrev pub place : ℕ → K → ℕ
  place n k = key.hash k % n

  pub place-congr : (n : ℕ) (k q : K) → (k ≈ q) ≡ true → place n k ≡ place n q
  place-congr n k q e = rw (≈-hash k q e) refl

  first-if :
      (b : Bool) (xs ys : List V)
      → first_of (if b then xs else ys) ≡ (if b then first_of xs else first_of ys)
  first-if true xs ys = refl
  first-if false xs ys = refl

  counted : (vs : List V) → ltb 0 (length vs) ≡ is_some (first_of vs)
  counted [] = refl
  counted (v ∷ vs) = lt→ltb 0 (length (v ∷ vs)) (omega arith)

  pub put-Serves :
      (n : ℕ) (k : K) (v : V)
      → Serves Single none value_at (place n) (local_put C) (k, v) k (λ held. true) (λ held. some v)
  unfolding local_put
  put-Serves n k v s single = (
    C.insert (k, v) (make_room C k s),
    refl,
    put-Single s k v single,
    λ q. ap first_of (put-values s k v q single) ∙ first-if (k ≈ q) (v ∷ []) (values s q),
  )

  pub get-Serves :
      (value_default : V) (n : ℕ) (k : K)
      → Serves Single none value_at
          (place n)
          (local_get C value_default)
          k
          k
          (value_or value_default)
          (λ held. held)
  get-Serves value_default n k s single = (
    s,
    local_get-value_at value_default s k single,
    single,
    λ q. elim (Bool-cases (k ≈ q)) [
      | inl same ↦ rw same (ap first_of (sym (values_in_congr k q (C.elements s) same)))
      | inr other ↦ rw other refl
    ],
  )

  pub erase-Serves :
      (value_default : V) (n : ℕ) (k : K)
      → Serves Single none value_at
          (place n)
          (local_erase C value_default)
          k
          k
          (λ held. (is_some held, value_default))
          (λ held. none)
  unfolding local_erase
  erase-Serves value_default n k s single = (
    (C.erase k s).1,
    rw (local_erase, C.erased k s, counted (values s k)) refl,
    erase-Single s k single,
    λ q. ap first_of (C.values-erase k s q) ∙ first-if (k ≈ q) [] (values s q),
  )

  empty-Single : (s : C.Store) → some C.empty ≡ some s → Single s
  unfolding values_in
  empty-Single s e k = rw (sym (some-injective _ _ e), C.elements-empty) (omega arith)

  pub new_all : (n j : ℕ) (s : C.Store) → get_elem? (replicate n C.empty) j ≡ some s → Single s
  new_all n j =
      replicate-all (λ o. (s : C.Store) → o ≡ some s → Single s) n C.empty (λ s e. absurd (cc))
        empty-Single j
