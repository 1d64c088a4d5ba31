-- ===== src/Container/Placed.antt =====
-- A container that places each key on one server, by any rule that treats equal keys alike: the servers
-- together answer like one map, as long as each keeps an invariant of its own.
use hcl.Base.{
  ℕ, zero, suc, ◌≡◌, ◌<◌, refl, sym, ◌∙◌, ap, true, false, List, [], ◌∷◌, Option, some, none,
  length, get_elem?, set, length-set, get_elem?-total, get_elem?-set, set-all, if◌then◌else◌, ◌==◌,
  ==_iff, Bool-cases, inl, inr, arith, ◌>>=◌,
}
use hcl.Container.{run_at}
use hcl.Container.Calls.{run_at-set}
use hcl.Container.Routed.{at_server}
use hcl.HashKey.{HashKey, ◌≈◌}

module _ {S K A : Type 0} ⦃key : HashKey K⦄ (Inv : S → Type 0) (absent : A) (local : S → K → A)
    (place : K → ℕ) where
  -- what the server of a key holds for it
  unfoldable pub placed : List S → K → A
  unfolding at_server
  placed servers q = at_server absent local (get_elem? servers (place q)) q

  abbrev pub AllKeep : List S → Type 0
  AllKeep servers = (j : ℕ) (s : S) → get_elem? servers j ≡ some s → Inv s

  -- a request about the key `k` as one server serves it: the answer, and the change at that key
  abbrev pub Serves :
      {Req Res : Type 0} → (Req → S → Option (Res × S)) → Req → K → (A → Res) → (A → A) → Type 0
  Serves method req k res x =
      (s : S)
      → Inv s
      → (s' : S) × (method req s ≡ some (res (local s k), s'))
        × Inv s'
        × ((q : K) → local s' q ≡ (if k ≈ q then x (local s k) else local s q))

  pub run_at-placed :
      {Req Res : Type 0} (method : Req → S → Option (Res × S)) (req : Req) (k : K) (res : A → Res)
      (x : A → A) (servers : List S)
      → ((q : K) → (k ≈ q) ≡ true → place k ≡ place q)
      → place k < length servers
      → AllKeep servers
      → Serves method req k res x
      → (servers' : List S) × (run_at method servers (place k) req
          ≡ some (res (placed servers k), servers'))
        × (length servers' ≡ length servers)
        × AllKeep servers'
        × ((q : K) → placed servers' q ≡ (if k ≈ q then x (placed servers k) else placed servers q))
  unfolding placed at_server
  run_at-placed method req k res x servers alike below keep serves =
      let i = place k in
      let (s, at) = get_elem?-total servers i below in
      let (s', run, kept, effect) = serves s (keep i s at) in
      let held : placed servers k ≡ local s k = rw at refl in
      (
        set servers i s',
        run_at-set method servers i req s s' _ at run
            ∙ ap (λ a. some (res a, set servers i s')) (sym held),
        length-set servers i s',
        set-all Inv servers i s' keep kept,
        λ q. rw (get_elem?-set servers i (place q) s' below) (elim (Bool-cases (place q == i)) [
          | inl same ↦ rw (same, (==_iff (place q) i).0 same, at, effect q) refl
          | inr other ↦ rw (other, apart q (alike q) other) refl
        ]),
      )
    where
      apart :
          (q : K)
          → ((k ≈ q) ≡ true → place k ≡ place q)
          → (place q == place k) ≡ false
          → (k ≈ q) ≡ false
      apart q alike other = ground arith

-- the same state on each of `n` servers
unfoldable pub replicate {ℓ} : {S : Type ℓ} → ℕ → S → List S
replicate zero s = []
replicate (suc n) s = s ∷ replicate n s

pub length-replicate {ℓ} : {S : Type ℓ} (n : ℕ) (s : S) → length (replicate n s) ≡ n
unfolding replicate
length-replicate zero s = refl
length-replicate (suc n) s = ap suc (length-replicate n s)

pub replicate-all {ℓ κ} :
    {S : Type ℓ} (P : Option S → Type κ) (n : ℕ) (s : S)
    → P none
    → P (some s)
    → (i : ℕ) → P (get_elem? (replicate n s) i)
unfolding replicate
replicate-all P zero s out here i = out
replicate-all P (suc n) s out here zero = here
replicate-all P (suc n) s out here (suc i) = replicate-all P n s out here i

-- Series of calls against one map: `view` is the map that the servers hold between them.
module _ {S Call Res : Type 0} (send : List S → Call → Option (Res × List S)) where
  unfoldable pub issue : List S → List Call → Option (List Res)
  issue servers [] = some []
  issue servers (call ∷ calls) = do
    (res, servers') ← send servers call
    rest ← issue servers' calls
    some (res ∷ rest)

module _ {K A Call Res : Type 0} ⦃key : HashKey K⦄ (key_of : Call → K) (answer : Call → A → Res)
    (change : Call → A → A) where
  -- the answers of one map
  unfoldable pub one_map : List Call → (K → A) → List Res
  one_map [] f = []
  one_map (call ∷ calls) f =
      let k = key_of call in
      answer call (f k) ∷ one_map calls (λ q. if k ≈ q then change call (f k) else f q)

module _ {S K A Call Res : Type 0} ⦃key : HashKey K⦄ (Good : List S → Type 0)
    (view : List S → K → A) (send : List S → Call → Option (Res × List S)) (key_of : Call → K)
    (answer : Call → A → Res) (change : Call → A → A) where
  abbrev pub Moves : Type 0
  Moves =
      (servers : List S) (call : Call)
      → Good servers
      → (servers' : List S) × (send servers call
          ≡ some (answer call (view servers (key_of call)), servers'))
        × Good servers'
        × ((q : K)
            → view servers' q ≡ (
                if key_of call ≈ q
                then change call (view servers (key_of call))
                else view servers q))

  pub issue-one_map :
      Moves
      → (servers : List S) (calls : List Call) (f : K → A) → Good servers
      → ((q : K) → view servers q ≡ f q)
      → issue send servers calls ≡ some (one_map key_of answer change calls f)
  unfolding issue one_map
  issue-one_map moves servers [] f good same = refl
  issue-one_map moves servers (call ∷ calls) f good same =
      let (servers', run, good', change') = moves servers call good in
      let k = key_of call in
      rw
        (
          run,
          same k,
          issue-one_map moves servers' calls (λ q. if k ≈ q then change call (f k) else f q) good'
              (λ q. change' q ∙ rw (same q, same k) refl),
        )
        refl
