-- ===== src/Container/Addressed.antt =====
-- Series of calls that name their server: each server's segment changes as if it were alone.
use hcl.Base.{
  ℕ, ◌≡◌, ◌<◌, refl, ◌∙◌, List, [], ◌∷◌, Option, some, length, get_elem?, set, length-set,
  get_elem?-total, get_elem?-set, get_elem?-lt, if◌then◌else◌, ◌==◌, ==_iff, Bool-cases, inl, inr,
  ◌>>=◌, ap, sym,
}
use mathlib.Core.Option.{some-injective}
use hcl.Container.{Container}

module _ {Req : Type 0} where
  -- the requests for server `i`, in their order
  unfoldable pub requests_at : ℕ → List (Container × ℕ × Req) → List Req
  requests_at i [] = []
  requests_at i ((c, j, req) ∷ calls) =
      let rest = requests_at i calls in if i == j then req ∷ rest else rest

  -- what calls for server `i` answered, of all answers
  unfoldable pub answers_at {ℓ} :
      {Res : Type ℓ} → ℕ → List (Container × ℕ × Req) → List Res → List Res
  answers_at i [] rs = []
  answers_at i (call ∷ calls) [] = []
  answers_at i ((c, j, req) ∷ calls) (r ∷ rs) =
      let rest = answers_at i calls rs in if i == j then r ∷ rest else rest

  -- each call names one of `n` servers
  unfoldable pub Aimed : ℕ → List (Container × ℕ × Req) → Type 0
  Aimed n [] = Unit {0}
  Aimed n ((c, i, req) ∷ calls) = (i < n) × Aimed n calls

module _ {S Req Res : Type 0} (serve : Req → S → Res × S) where
  -- one segment by itself
  unfoldable pub serve_all : List Req → S → List Res × S
  serve_all [] s = ([], s)
  serve_all (req ∷ reqs) s =
      let (r, s₁) = serve req s in let (rs, s₂) = serve_all reqs s₁ in (r ∷ rs, s₂)

module _ {S Req Res : Type 0} (send : Container → List S → ℕ × Req → Option (Res × List S)) where
  unfoldable pub run : List S → List (Container × ℕ × Req) → Option (List Res × List S)
  run servers [] = some ([], servers)
  run servers ((c, i, req) ∷ calls) = do
    (r, servers₁) ← send c servers (i, req)
    (rs, servers₂) ← run servers₁ calls
    some (r ∷ rs, servers₂)

module _ {S Req Res : Type 0} (serve : Req → S → Res × S) where
  -- what the calls make of server `i`
  abbrev pub Served : List S → List (Container × ℕ × Req) → List Res → List S → Type 0
  Served servers calls rs servers' =
      (i : ℕ) (s : S)
      → get_elem? servers i ≡ some s
      → (get_elem? servers' i ≡ some (serve_all serve (requests_at i calls) s).1)
        × (answers_at i calls rs ≡ (serve_all serve (requests_at i calls) s).0)

  pub Served-cons :
      (servers servers' : List S) (c : Container) (j : ℕ) (req : Req)
      (calls : List (Container × ℕ × Req)) (rs : List Res) (t : S)
      → get_elem? servers j ≡ some t
      → Served (set servers j (serve req t).1) calls rs servers'
      → Served servers ((c, j, req) ∷ calls) ((serve req t).0 ∷ rs) servers'
  unfolding requests_at answers_at serve_all
  Served-cons servers servers' c j req calls rs t here rest i s at =
      let read = get_elem?-set servers j i (serve req t).1 (get_elem?-lt servers j t here) in
      elim (Bool-cases (i == j)) [
        | inl same ↦
            let (now, said) = rest i (serve req t).1 (read ∙ rw same refl) in
            rw (same, one servers s t at here ((==_iff i j).0 same))
              (now, ap (◌∷◌ (serve req t).0) said)
        | inr other ↦ let (now, said) = rest i s (read ∙ rw other at) in rw other (now, said)
      ]
    where
      one :
          (servers : List S) (s t : S)
          → get_elem? servers i ≡ some s
          → get_elem? servers j ≡ some t
          → i ≡ j
          → s ≡ t
      one servers s t at here e = some-injective _ _ (sym at ∙ ap (get_elem? servers) e ∙ here)

module _ {S Req Res : Type 0} (serve : Req → S → Res × S)
    (send : Container → List S → ℕ × Req → Option (Res × List S)) where
  abbrev pub Sends : Type 0
  Sends =
      (c : Container) (servers : List S) (i : ℕ) (req : Req) (s : S)
      → get_elem? servers i ≡ some s
      → send c servers (i, req) ≡ some ((serve req s).0, set servers i (serve req s).1)

  pub run-Served :
      Sends
      → (servers : List S) (calls : List (Container × ℕ × Req)) → Aimed (length servers) calls
      → (rs : List Res) × (servers' : List S) × (run send servers calls ≡ some (rs, servers'))
        × (length servers' ≡ length servers)
        × Served serve servers calls rs servers'
  unfolding run Aimed requests_at answers_at serve_all
  run-Served sends servers [] aimed = ([], servers, refl, refl, λ i s at. (at, refl))
  run-Served sends servers ((c, j, req) ∷ calls) (lt, aimed) =
      let (t, here) = get_elem?-total servers j lt in
      let (rs, servers', went, width, effect) =
        run-Served sends (set servers j (serve req t).1) calls
          (rw (length-set servers j (serve req t).1) aimed) in
      (
        (serve req t).0 ∷ rs,
        servers',
        rw (sends c servers j req t here, went) refl,
        width ∙ length-set servers j (serve req t).1,
        Served-cons serve servers servers' c j req calls rs t here effect,
      )
