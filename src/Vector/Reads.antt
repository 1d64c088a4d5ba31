-- ===== src/Vector/Reads.antt =====
-- Push, Get and Size of the vector, by clients anywhere: elements stay where they are.
use hcl.Base.{
  ℕ, zero, ◌+◌, suc, ◌≡◌, refl, sym, ◌∙◌, ap, Bool, true, false, List, [], ◌∷◌, ◌++◌, append_assoc,
  append-nil, Option, some, none, length, length-append, get_elem?, get_elem?-total, ◌>>=◌, arith,
  ltb, inl, inr, Bool-cases, ltb→lt,
}
use hcl.Container.{Container, Network}
use hcl.Container.Calls.{call-set}
use hcl.Container.Addressed.{requests_at, answers_at, Aimed, run, Sends, serve_all, run-Served}
use hcl.Vector.{local_push, local_get, local_size, push, get, size}

pub data VectorCall (V : Type 0) : Type 0 where
  push_call : V → VectorCall V
  get_call : ℕ → VectorCall V
  size_call : VectorCall V

pub data VectorAnswer (V : Type 0) : Type 0 where
  done : Bool → VectorAnswer V
  got : Bool → V → VectorAnswer V
  count : ℕ → VectorAnswer V

module _ {V : Type 0} (net : Network (List V)) (value_default : V) where
  abbrev pub send :
      Container → List (List V) → ℕ × VectorCall V → Option (VectorAnswer V × List (List V))
  send c servers (i, push_call value) = do
    (b, servers') ← push net c servers value i
    some (done b, servers')
  send c servers (i, get_call index) = do
    ((b, value), servers') ← get net value_default c servers index i
    some (got b value, servers')
  send c servers (i, size_call) = do (n, servers') ← size net c servers i; some (count n, servers')

module _ {V : Type 0} where
  unfoldable pub pushed : List (VectorCall V) → List V
  pushed [] = []
  pushed (push_call value ∷ calls) = value ∷ pushed calls
  pushed (get_call index ∷ calls) = pushed calls
  pushed (size_call ∷ calls) = pushed calls

  -- `index` of a vector, where it has that many elements
  unfoldable pub read : V → Bool → Option V → VectorAnswer V
  read value_default true (some value) = got true value
  read value_default true none = got false value_default
  read value_default false found = got false value_default

  -- the answers to a series of calls, from the elements that are there at its end, where the first `n`
  -- are there at its start
  unfoldable pub answers_from : V → ℕ → List V → List (VectorCall V) → List (VectorAnswer V)
  answers_from value_default n xs [] = []
  answers_from value_default n xs (push_call value ∷ calls) =
      done true ∷ answers_from value_default (n + 1) xs calls
  answers_from value_default n xs (get_call index ∷ calls) =
      read value_default (ltb index n) (get_elem? xs index) ∷ answers_from value_default n xs calls
  answers_from value_default n xs (size_call ∷ calls) =
      count n ∷ answers_from value_default n xs calls

  -- one vector by itself
  unfoldable pub serve : V → VectorCall V → List V → VectorAnswer V × List V
  serve value_default (push_call value) xs = (done true, xs ++ (value ∷ []))
  serve value_default (get_call index) xs =
      (read value_default (ltb index (length xs)) (get_elem? xs index), xs)
  serve value_default size_call xs = (count (length xs), xs)

  get_elem?-append :
      (xs ys : List V) (i : ℕ) → ltb i (length xs) ≡ true → get_elem? (xs ++ ys) i ≡ get_elem? xs i
  get_elem?-append [] ys i h = absurd (ground arith)
  get_elem?-append (x ∷ xs) ys zero h = refl
  get_elem?-append (x ∷ xs) ys (suc i) h = get_elem?-append xs ys i (ground arith)

  read-append :
      (value_default : V) (xs ys : List V) (i : ℕ)
      → read value_default (ltb i (length xs)) (get_elem? xs i)
        ≡ read value_default (ltb i (length xs)) (get_elem? (xs ++ ys) i)
  unfolding read
  read-append value_default xs ys i = elim (Bool-cases (ltb i (length xs))) [
    | inl lt ↦ rw (lt, get_elem?-append xs ys i lt) refl
    | inr ge ↦ rw ge refl
  ]

  serve_all-pushed :
      (value_default : V) (calls : List (VectorCall V)) (xs : List V)
      → (serve_all (serve value_default) calls xs).1 ≡ xs ++ pushed calls
  unfolding pushed serve serve_all
  serve_all-pushed value_default [] xs = sym (append-nil xs)
  serve_all-pushed value_default (push_call value ∷ calls) xs =
      serve_all-pushed value_default calls (xs ++ (value ∷ []))
      ∙ append_assoc xs (value ∷ []) (pushed calls)
  serve_all-pushed value_default (get_call index ∷ calls) xs =
      serve_all-pushed value_default calls xs
  serve_all-pushed value_default (size_call ∷ calls) xs = serve_all-pushed value_default calls xs

  serve_all-answers_from :
      (value_default : V) (calls : List (VectorCall V)) (xs : List V)
      → (serve_all (serve value_default) calls xs).0
        ≡ answers_from value_default (length xs) (xs ++ pushed calls) calls
  unfolding pushed serve serve_all answers_from
  serve_all-answers_from value_default [] xs = refl
  serve_all-answers_from value_default (push_call value ∷ calls) xs = ap (◌∷◌ (done true)) (
      serve_all-answers_from value_default calls (xs ++ (value ∷ []))
      ∙ rw (length-append xs (value ∷ []), append_assoc xs (value ∷ []) (pushed calls)) refl)
  serve_all-answers_from value_default (get_call index ∷ calls) xs =
      rw
        (
          serve_all-answers_from value_default calls xs,
          read-append value_default xs (pushed calls) index,
        )
        refl
  serve_all-answers_from value_default (size_call ∷ calls) xs =
      ap (◌∷◌ (count (length xs))) (serve_all-answers_from value_default calls xs)

module _ {V : Type 0} (net : Network (List V)) (value_default : V) where
  send-Sends : Sends (serve value_default) (send net value_default)
  unfolding serve read push get size local_push local_get local_size
  send-Sends c servers i (push_call value) s at =
      rw
        (call-set c local_push (net.rpc local_push) servers i value s (s ++ (value ∷ [])) true at
          refl)
        refl
  send-Sends c servers i (get_call index) s at =
      let method = local_get value_default in
      elim (Bool-cases (ltb index (length s))) [
        | inl lt ↦
            let (value, found) = get_elem?-total s index (ltb→lt _ _ lt) in
            rw
              (
                call-set c method (net.rpc method) servers i index s s (true, value) at
                    (rw (lt, found) refl),
                lt,
                found,
              )
              refl
        | inr ge ↦
            rw
              (
                call-set c method (net.rpc method) servers i index s s (false, value_default) at
                    (rw ge refl),
                ge,
              )
              refl
      ]
  send-Sends c servers i size_call s at =
      rw (call-set c local_size (net.rpc local_size) servers i tt s s (length s) at refl) refl

  -- Any series of Push, Get and Size calls, each by a client anywhere and for one of the servers, through
  -- a network that runs what the servers have bound, returns; each server holds at the end what it held
  -- at first and then what was pushed to it, in order; and each Get has answered what stands at its index
  -- at the end, or that there was nothing, just if the elements pushed by then did not reach its index.
  pub run-answers_from :
      (servers : List (List V)) (calls : List (Container × ℕ × VectorCall V)) (i : ℕ) (xs : List V)
      → Aimed (length servers) calls
      → get_elem? servers i ≡ some xs
      → (rs : List (VectorAnswer V)) × (servers' : List (List V)) × (run
            (send net value_default)
            servers
            calls
          ≡ some (rs, servers'))
        × (xs' : List V) × (get_elem? servers' i ≡ some xs')
        × (xs' ≡ xs ++ pushed (requests_at i calls))
        × (answers_at i calls rs ≡ answers_from value_default (length xs) xs' (requests_at i calls))
  run-answers_from servers calls i xs aimed at =
      let (rs, servers', went, width, effect) =
        run-Served (serve value_default) (send net value_default) send-Sends servers calls aimed in
      let (held, said) = effect i xs at in
      let reqs = requests_at i calls in
      (
        rs,
        servers',
        went,
        xs ++ pushed reqs,
        held ∙ ap some (serve_all-pushed value_default reqs xs),
        refl,
        said ∙ serve_all-answers_from value_default reqs xs,
      )
