-- ===== src/Container/Series.antt =====
-- Series of calls by clients anywhere, in the order in which they take effect, against one map.
use hcl.Base.{ℕ, ◌≡◌, refl, ◌∙◌, List, [], ◌∷◌, Option, some, length, if◌then◌else◌, ◌>>=◌}
use hcl.Container.{Container}
use hcl.Container.Routed.{global}
use hcl.HashKey.{HashKey, ◌≈◌}

-- each call's client counts `n` servers
unfoldable pub Clients {ℓ} : {Req : Type ℓ} → ℕ → List (Container × Req) → Type 0
Clients n [] = Unit {0}
Clients n ((c, req) ∷ calls) = (c.num_servers ≡ n) × Clients n calls

module _ {S Req Res : Type 0} (send : Container → List S → Req → Option (Res × List S)) where
  unfoldable pub send_all : List S → List (Container × Req) → Option (List Res)
  send_all servers [] = some []
  send_all servers ((c, req) ∷ calls) = do
    (res, servers') ← send c servers req
    rest ← send_all servers' calls
    some (res ∷ rest)

module _ {K A Req Res : Type 0} ⦃key : HashKey K⦄ (key_of : Req → K) (answer : Req → A → Res)
    (change : Req → A → A) where
  -- the answers of one map from keys to values in A
  unfoldable pub answers : List (Container × Req) → (K → A) → List Res
  answers [] f = []
  answers ((c, req) ∷ calls) f =
      let k = key_of req in
      answer req (f k) ∷ answers calls (λ q. if k ≈ q then change req (f k) else f q)

module _ {S K A Req Res : Type 0} ⦃key : HashKey K⦄ (absent : A) (local : S → K → A)
    (send : Container → List S → Req → Option (Res × List S)) (key_of : Req → K)
    (answer : Req → A → Res) (change : Req → A → A) where
  -- one call to `n` servers as one map serves it
  abbrev pub Step : ℕ → Type 0
  Step n =
      (c : Container) (servers : List S) (req : Req)
      → length servers ≡ n
      → c.num_servers ≡ n
      → (servers' : List S) × (send c servers req
          ≡ some (answer req (global absent local servers (key_of req)), servers'))
        × (length servers' ≡ length servers)
        × ((q : K)
            → global absent local servers' q ≡ (
                if key_of req ≈ q
                then change req (global absent local servers (key_of req))
                else global absent local servers q))

  pub send_all-answers :
      (n : ℕ) (step : Step n) (servers : List S) (calls : List (Container × Req)) (f : K → A)
      → length servers ≡ n
      → Clients n calls
      → ((q : K) → global absent local servers q ≡ f q)
      → send_all send servers calls ≡ some (answers key_of answer change calls f)
  unfolding send_all answers Clients
  send_all-answers n step servers [] f width all same = refl
  send_all-answers n step servers ((c, req) ∷ calls) f width (counts, all) same =
      let (servers', run, width', change') = step c servers req width counts in
      rw
        (
          run,
          same (key_of req),
          send_all-answers n step servers' calls
              (λ q. if key_of req ≈ q then change req (f (key_of req)) else f q) (width' ∙ width)
              all (λ q. change' q ∙ rw (same q, same (key_of req)) refl),
        )
        refl
