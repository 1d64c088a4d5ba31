-- ===== src/Set/Reads.antt =====
-- The calls of the set that read one segment or all of them, and PopFirst.
use hcl.Base.{
  ℕ, zero, suc, ◌+◌, ◌≡◌, ◌<◌, refl, ◌∙◌, ap, Bool, true, false, not, List, [], ◌∷◌, Option, some,
  length, arith, ltb, hits, take, ◌>>=◌,
}
use hcl.Container.{Container, Network}
use hcl.Container.Gather.{all_of, gather-all_of}
use hcl.HashKey.{HashKey, SortKey, ◌≺◌}
use hcl.Sorted.{SortedContainer, tail}
use hcl.Sorted.Range.{only, local_contains-only}
use hcl.Set.{
  copy_from, local_contains, local_get_all_data, seek_walk, local_seek_first_n, local_pop_first,
  contains, get_all_data,
}

copy_from-id :
    {K : Type 0} ⦃key : HashKey K⦄ ⦃sort : SortKey K⦄ (C : SortedContainer {K = K} (λ (k : K). k))
    (ks : List K)
    → copy_from C ks ≡ ks
unfolding copy_from
copy_from-id C [] = refl
copy_from-id C (k ∷ ks) = ap (◌∷◌ k) (copy_from-id C ks)

module _ {K : Type 0} ⦃key : HashKey K⦄ ⦃sort : SortKey K⦄
    (C : SortedContainer {K = K} (λ (k : K). k)) where
  -- what one server answers to a search for a range: the elements of the range in order; a single element
  -- is not tested against the end of the range
  abbrev pub range_of : K × K → C.Store → List K
  range_of (key_start, key_end) s = only C (λ x y. not (x ≺ y)) key_start key_end (C.elements s)

  -- Contains, by a client whose own server is one of the servers, returns the answers of all servers to
  -- the range, no element more or less often than in them together, and changes nothing.
  pub contains-range_of :
      (net : Network C.Store) (c : Container) (servers : List C.Store) (range : K × K)
      → c.num_servers ≡ length servers
      → c.my_server_idx < length servers
      → (out : List K) × (contains C net c servers range ≡ some (out, servers))
        × ((p : K → Bool) → hits p out ≡ hits p (all_of (range_of range) servers))
  unfolding contains local_contains
  contains-range_of net c servers (a, b) count here =
      gather-all_of c (local_contains C) (net.rpc (local_contains C)) (a, b) (range_of (a, b))
        (λ s. rw (local_contains-only C (λ x y. not (x ≺ y)) s a b) refl) servers count here

  -- GetAllData, by a client whose own server is one of the servers, returns the elements of all servers,
  -- no element more or less often than in them together, and changes nothing.
  pub get_all_data-elements :
      (net : Network C.Store) (c : Container) (servers : List C.Store)
      → c.num_servers ≡ length servers
      → c.my_server_idx < length servers
      → (out : List K) × (get_all_data C net c servers ≡ some (out, servers))
        × ((p : K → Bool) → hits p out ≡ hits p (all_of C.elements servers))
  unfolding get_all_data local_get_all_data
  get_all_data-elements net c servers count here =
      gather-all_of c (local_get_all_data C) (net.rpc (local_get_all_data C)) tt C.elements
        (λ s. rw (copy_from-id C (C.elements s)) refl) servers count here

  seek_walk-take :
      (m n i : ℕ) (ks : List K)
      → n ≡ i + m
      → seek_walk C n i ks ≡ (i + length (take m ks), take m ks)
  unfolding seek_walk
  seek_walk-take zero n i [] e = ap (λ j. (j, [])) (omega arith)
  seek_walk-take (suc m) n i [] e = ap (λ j. (j, [])) (omega arith)
  seek_walk-take zero n i (k ∷ ks) e =
      let stop : ltb i n ≡ false = ground arith in rw stop (ap (λ j. (j, [])) (omega arith))
  seek_walk-take (suc m) n i (k ∷ ks) e =
      let go : ltb i n ≡ true = ground arith in
      rw (go, seek_walk-take m n (i + 1) ks (omega arith))
        (ap (λ j. (j, k ∷ take m ks)) (omega arith))

  -- LocalSeekFirstN answers the n smallest elements, or all where there are fewer, smallest first, with a
  -- flag that tells whether there is one, and leaves the set as it is.
  pub local_seek_first_n-take :
      (n : ℕ) (s : C.Store)
      → local_seek_first_n C n s
        ≡ some ((ltb 0 (length (take n (C.elements s))), take n (C.elements s)), s)
  unfolding local_seek_first_n
  local_seek_first_n-take n s =
      rw (seek_walk-take n n 0 (C.elements s) (omega arith))
        (ap (λ j. some ((ltb 0 j, take n (C.elements s)), s)) (omega arith))

  -- LocalPopFirst called `n` times
  unfoldable pub pop_series : K → ℕ → C.Store → Option (List (Bool × K) × C.Store)
  pop_series v0 zero s = some ([], s)
  pop_series v0 (suc n) s = do
    (r, s') ← local_pop_first C v0 tt s
    (rs, s'') ← pop_series v0 n s'
    some (r ∷ rs, s'')

  abbrev found_all : List K → List (Bool × K)
  found_all [] = []
  found_all (k ∷ ks) = (true, k) ∷ found_all ks

  -- Called as often as there are elements, LocalPopFirst finds each of them once, the smallest first, and
  -- leaves the set empty.
  pub pop_series-elements :
      (v0 : K) (s : C.Store)
      → (s' : C.Store) × (pop_series v0 (length (C.elements s)) s
          ≡ some (found_all (C.elements s), s'))
        × (C.elements s' ≡ [])
  unfolding pop_series local_pop_first
  pop_series-elements v0 s = drained (C.elements s) s refl
    where
      first :
          (k : K) (ks : List K) (s : C.Store) {s' : C.Store}
          → C.elements s ≡ k ∷ ks
          → pop_series v0 (length ks) (C.erase_begin s) ≡ some (found_all ks, s')
          → pop_series v0 (suc (length ks)) s ≡ some ((true, k) ∷ found_all ks, s')
      first k ks s e run =
          let more : ltb 0 (length (k ∷ ks)) ≡ true = ground arith in rw (e, more, run) refl

      drained :
          (ks : List K) (s : C.Store)
          → C.elements s ≡ ks
          → (s' : C.Store) × (pop_series v0 (length ks) s ≡ some (found_all ks, s'))
            × (C.elements s' ≡ [])
      drained [] s e = (s, refl, e)
      drained (k ∷ ks) s e =
          let (s', run, empty) =
            drained ks (C.erase_begin s) (C.elements-erase_begin s ∙ ap tail e) in
          (s', first k ks s e run, empty)
