-- ===== src/HashKey.antt =====
-- The template parameters HashFcn and EqualFcn of the hashed containers, with what the standard
-- asks of them: an equivalence, and equal keys have equal hashes. A hash is a size_t.
use hcl.Base.{◌&&◌, not, ltb, false, ℕ, Bool, true, ◌≡◌, arith, ◌==◌, ==_refl}

pub record HashKey {ℓ} (Item : Type ℓ) : Type ℓ where
  pub hash : Item → ℕ
  pub equal : Item → Item → Bool
  pub same_hash : {k q : Item} → equal k q ≡ true → hash k ≡ hash q
  pub equal_refl : {k : Item} → equal k k ≡ true
  pub equal_congr : {k q : Item} (j : Item) → equal k q ≡ true → equal k j ≡ equal q j

module _ {ℓ} {Item : Type ℓ} ⦃key : HashKey Item⦄ where
  infix 50 ◌≈◌
  abbrev pub ◌≈◌ : Item → Item → Bool
  k ≈ q = key.equal k q

  pub ≈_refl : (k : Item) → k ≈ k ≡ true
  ≈_refl k = key.equal_refl

  pub ≈-hash : (k q : Item) → k ≈ q ≡ true → key.hash k ≡ key.hash q
  ≈-hash k q = key.same_hash

  pub ≈_congr : (k q j : Item) → k ≈ q ≡ true → k ≈ j ≡ q ≈ j
  ≈_congr k q j = key.equal_congr j

  pub ≈_comm : (k q : Item) → k ≈ q ≡ q ≈ k
  ≈_comm k q = ground (arith, ≈_congr k q k, ≈_congr q k q, ≈_refl k, ≈_refl q)

pub int_congr : (k q j : ℕ) → (k == q) ≡ true → (k == j) ≡ (q == j)
int_congr k q j e = ground arith

pub int_hash : {k q : ℕ} → (k == q) ≡ true → k ≡ q
int_hash e = ground arith

-- integer keys under std::hash, which is the identity in the common implementations
instance abbrev pub int_key : HashKey ℕ
int_key = record {
  hash = λ a. a;
  equal = ◌==◌;
  same_hash = int_hash;
  equal_refl = λ {k}. ==_refl k;
  equal_congr = λ {k} {q} j. int_congr k q j;
}

-- The template parameter Compare of the ordered containers, at its default std::less, so that the
-- operators of the keys agree with it: a strict total order up to the equality of keys.
pub record SortKey {ℓ} (K : Type ℓ) ⦃key : HashKey K⦄ : Type ℓ where
  pub less : K → K → Bool
  pub equal-less : (a b : K) → key.equal a b ≡ (not (less a b) && not (less b a))
  pub less_trans : (a b c : K) → less a b ≡ true → less b c ≡ true → less a c ≡ true

module _ {ℓ} {K : Type ℓ} ⦃key : HashKey K⦄ ⦃sort : SortKey K⦄ where
  infix 50 ◌≺◌
  abbrev pub ◌≺◌ : K → K → Bool
  a ≺ b = sort.less a b

  pub ≺_irrefl : (a : K) → a ≺ a ≡ false
  ≺_irrefl a = ground (arith, sort.equal-less a a, ≈_refl a)

  pub ≺_congr_left : (a b c : K) → (a ≈ b) ≡ true → a ≺ c ≡ b ≺ c
  ≺_congr_left a b c e = ground (
    arith,
    sort.equal-less a b,
    sort.equal-less b c,
    sort.equal-less a c,
    ≈_congr a b c e,
    sort.less_trans a c b,
    sort.less_trans b c a,
  )

  pub ≺_congr_right : (a b c : K) → (a ≈ b) ≡ true → c ≺ a ≡ c ≺ b
  ≺_congr_right a b c e = ground (
    arith,
    sort.equal-less a b,
    sort.equal-less b c,
    sort.equal-less a c,
    ≈_congr a b c e,
    sort.less_trans a c b,
    sort.less_trans b c a,
  )

pub int_less : (a b : ℕ) → (a == b) ≡ (not (ltb a b) && not (ltb b a))
int_less a b = ground arith

pub int_less_trans : (k q j : ℕ) → ltb k q ≡ true → ltb q j ≡ true → ltb k j ≡ true
int_less_trans k q j lt lt' = ground arith

instance abbrev pub int_sort : SortKey ℕ
int_sort = record { less = ltb; less_trans = int_less_trans; equal-less = int_less }
