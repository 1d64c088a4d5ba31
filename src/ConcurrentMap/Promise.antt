-- ===== src/ConcurrentMap/Promise.antt =====
-- What one server promises: its answer to a request and its table afterwards, against a map from keys
-- to values. A Get of a key that hashes below the largest key finds nothing, which is what the search
-- from the head of a bucket does.
use hcl.Base.{
  arith, is_some, ℕ, Bool, true, false, not, ◌&&◌, Option, some, none, ◌≡◌, ◌∙◌, refl, inl, inr,
  if◌then◌else◌, ltb, ltb→lt, not_ltb→le, Bool-cases,
}
use hcl.BlockMap.{BlockMap}
use hcl.BlockMap.View.{IsValid, view}
use hcl.BlockMap.Effects.{
  insert-view, find-view, update_field-view, erase-view, update-field, get-view, get_misses,
}
use hcl.ConcurrentMap.{
  ConcurrentMap, Request, insert_req, find_req, erase_req, get_req, update_req, Response, flag, got,
  key_of, serve,
}
use hcl.HashKey.{HashKey, ◌≈◌}
use hcl.LockfreeQueue.{LockfreeQueue}

module _ {V : Type 0} where
  unfoldable pub value_or : V → Option V → V
  value_or v none = v
  value_or v (some w) = w

  got_value :
      (v : V) (o : Option V)
      → (elim o as (λ _. Bool × V) [ none ↦ (false, v) | some w ↦ (true, w) ]).1 ≡ value_or v o
  unfolding value_or
  got_value v none = refl
  got_value v (some w) = refl

  unfoldable pub overwritten : Bool → V → Option V → Option V
  overwritten b v none = none
  overwritten b v (some w) = some (if b then v else w)

  overwritten-eq :
      (b : Bool) (v : V) (o : Option V)
      → (elim o as (λ _. Option V) [ none ↦ none | some w ↦ some (if b then v else w) ])
        ≡ overwritten b v o
  unfolding overwritten
  overwritten-eq b v none = refl
  overwritten-eq b v (some w) = refl

module _ {K V : Type 0} ⦃key : HashKey K⦄ where
  -- The answer, from the map that the client believes in. It is that of a map but for a Get of a key that
  -- hashes below the largest one: the search in the table starts at a node with the largest key, and stops
  -- there.
  unfoldable pub answer : V → K → Request K V → (K → Option V) → Response V
  answer v0 max_key (insert_req k v) f = flag true
  answer v0 max_key (find_req k) f = flag (is_some (f k))
  answer v0 max_key (erase_req k) f = flag (is_some (f k))
  answer v0 max_key (get_req k) f =
      got (if ltb (key.hash k) (key.hash max_key) then v0 else value_or v0 (f k))
  answer v0 max_key (update_req k v) f = flag (is_some (f k))

  -- the map afterwards
  unfoldable pub promised : Request K V → (K → Option V) → K → Option V
  promised (insert_req k v) f q = if (k ≈ q) && not (is_some (f k)) then some v else f q
  promised (find_req k) f q = f q
  promised (erase_req k) f q = if k ≈ q then none else f q
  promised (get_req k) f q = f q
  promised (update_req k v) f q = overwritten (k ≈ q) v (f q)

module _ {Q : LockfreeQueue ℕ} {K V : Type 0} ⦃key : HashKey K⦄ where
  -- a server that answers for the map f
  pub record Holds (max_key : K) (s : ConcurrentMap Q K V) (f : K → Option V) : Type 0 where
    pub table : BlockMap Q K V
    pub there : s.my_table ≡ some table
    pub valid : IsValid table
    pub empty : table.empty_key ≡ max_key
    pub reads : (q : K) → view table q ≡ f q

  unfoldable pub Serves : V → K → Request K V → ConcurrentMap Q K V → (K → Option V) → Type 0
  Serves v0 max_key req s f =
      (s' : ConcurrentMap Q K V) × (serve v0 req s ≡ some (answer v0 max_key req f, s'))
      × Holds max_key s' (promised req f)

  pub serve-Serves :
      (v0 : V) (max_key : K) (req : Request K V) (s : ConcurrentMap Q K V) (f : K → Option V)
      → Holds max_key s f
      → (max_key ≈ key_of req) ≡ false
      → Serves v0 max_key req s f
  unfolding Serves serve answer promised
  serve-Serves v0 max_key (insert_req k v) s f h other =
      let (t', run, valid, reads, same) = insert-view h.valid k v in
      (
        record s { my_table = some t' },
        rw (h.there, run) refl,
        record {
          table = t';
          there = refl;
          valid = valid;
          empty = same ∙ h.empty;
          reads = λ q. rw (reads q, h.reads k, h.reads q) refl;
        },
      )
  serve-Serves v0 max_key (find_req k) s f h other =
      let (p, run, hit) = find-view h.valid k in
      (s, rw (h.there, run, hit, h.reads k) (ground arith), h)
  serve-Serves v0 max_key (erase_req k) s f h other =
      let (t', run, valid, reads, same) = erase-view h.valid k in
      (
        record s { my_table = some t' },
        rw (h.there, run, h.reads k) refl,
        record {
          table = t';
          there = refl;
          valid = valid;
          empty = same ∙ h.empty;
          reads = λ q. rw (reads q, h.reads q) refl;
        },
      )
  serve-Serves v0 max_key (get_req k) s f h other =
      elim (Bool-cases (ltb (key.hash k) (key.hash max_key))) [
        | inl below ↦ (
          s,
          rw (h.there, get_misses h.valid k v0 (rw h.empty (ltb→lt _ _ below)), below) refl,
          h,
        )
        | inr above ↦ (
          s,
          rw
              (
                h.there,
                get-view h.valid k v0 (rw h.empty (not_ltb→le _ _ above)) (rw h.empty other),
                above,
                h.reads k,
                got_value v0 (f k),
              )
              refl,
          h,
        )
      ]
  serve-Serves v0 max_key (update_req k v) s f h other =
      let (t', run, valid, reads, same) = update_field-view h.valid k (λ _. v) in
      (
        record s { my_table = some t' },
        rw (h.there, update-field h.valid k v, run, h.reads k) refl,
        record {
          table = t';
          there = refl;
          valid = valid;
          empty = same ∙ h.empty;
          reads = λ q. rw (reads q, h.reads q) (overwritten-eq (k ≈ q) v (f q));
        },
      )
