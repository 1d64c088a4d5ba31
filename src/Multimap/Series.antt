-- ===== src/Multimap/Series.antt =====
-- Put, Get and Erase of the multimap, by clients anywhere: the servers together answer like one map with
-- one value for each key.
use hcl.Base.{
  ℕ, ◌≡◌, ◌≤◌, ◌<◌, refl, ◌∙◌, ap, Bool, true, List, Option, some, none, is_some, length, ◌>>=◌,
  mod_lt,
}
use hcl.Container.{Container, Network}
use hcl.Container.Calls.{routed-run_at}
use hcl.Container.Routed.{at_server}
use hcl.Container.Placed.{
  replicate, length-replicate, replicate-all, placed, AllKeep, run_at-placed, Moves, issue, one_map,
  issue-one_map,
}
use hcl.HashKey.{HashKey}
use hcl.Multimap.Store.{values_in}
use hcl.Multimap.Single.{
  value_or, first_of, value_at, Single, place, place-congr, put-Serves, get-Serves, erase-Serves,
  new_all,
}
use hcl.Multimap.{MultiContainer, local_put, local_get, local_erase, put, get, erase}

pub data MultimapCall (K V : Type 0) : Type 0 where
  put_call : K → V → MultimapCall K V
  get_call : K → MultimapCall K V
  erase_call : K → MultimapCall K V

pub data MultimapAnswer (V : Type 0) : Type 0 where
  done : Bool → MultimapAnswer V
  found : Bool → V → MultimapAnswer V

module _ {K V : Type 0} where
  -- a call with its client
  abbrev pub key_of : Container × MultimapCall K V → K
  key_of (c, put_call k v) = k
  key_of (c, get_call k) = k
  key_of (c, erase_call k) = k

  -- what a call answers, where the key had a value or none, and what the key has afterwards
  abbrev pub answer : V → Container × MultimapCall K V → Option V → MultimapAnswer V
  answer value_default (c, put_call k v) held = done true
  answer value_default (c, get_call k) held = let (b, v) = value_or value_default held in found b v
  answer value_default (c, erase_call k) held = found (is_some held) value_default

  abbrev pub value_after : Container × MultimapCall K V → Option V → Option V
  value_after (c, put_call k v) held = some v
  value_after (c, get_call k) held = held
  value_after (c, erase_call k) held = none

module _ {K V : Type 0} ⦃key : HashKey K⦄ (C : MultiContainer K V) where
  -- the client `c`, which counts `n` servers
  abbrev pub counting : ℕ → Container → Container
  counting n c = record c { num_servers = n }

  abbrev pub send :
      Network C.Store
      → V
      → ℕ
      → List C.Store
      → Container × MultimapCall K V
      → Option (MultimapAnswer V × List C.Store)
  send net value_default n servers (c, put_call k v) = do
    (b, servers') ← put C net (counting n c) servers (k, v)
    some (done b, servers')
  send net value_default n servers (c, get_call k) = do
    ((b, v), servers') ← get C net value_default (counting n c) servers k
    some (found b v, servers')
  send net value_default n servers (c, erase_call k) = do
    ((b, v), servers') ← erase C net value_default (counting n c) servers k
    some (found b v, servers')

  module _ (net : Network C.Store) (value_default : V) (n : ℕ) (pos : 0 < n) (few : n ≤ 65536) where
    moves :
        Moves
          (λ servers.
            (length servers ≡ n) × AllKeep (Single C) none (value_at C) (place C n) servers)
          (placed (Single C) none (value_at C) (place C n))
          (send net value_default n)
          key_of
          (answer value_default)
          value_after
    unfolding put get erase
    moves servers (c, put_call k v) (width, keep) =
        let (servers', run, width', kept, change) =
          run_at-placed (Single C) none (value_at C) (place C n) (local_put C) (k, v) k
            (λ held. true) (λ held. some v) servers (place-congr C n k)
            (rw width (mod_lt (key.hash k) n pos)) keep (put-Serves C n k v) in
        (
          servers',
          rw
              (
                routed-run_at (counting n c) (local_put C) (net.rpc (local_put C)) servers
                    (key.hash k) n (k, v) refl width pos few,
                run,
              )
              refl,
          (width' ∙ width, kept),
          change,
        )
    moves servers (c, get_call k) (width, keep) =
        let method = local_get C value_default in
        let (servers', run, width', kept, change) =
          run_at-placed (Single C) none (value_at C) (place C n) method k k (value_or value_default)
            (λ held. held) servers (place-congr C n k) (rw width (mod_lt (key.hash k) n pos)) keep
            (get-Serves C value_default n k) in
        (
          servers',
          rw
              (
                routed-run_at (counting n c) method (net.rpc method) servers (key.hash k) n k refl
                    width pos few,
                run,
              )
              refl,
          (width' ∙ width, kept),
          change,
        )
    moves servers (c, erase_call k) (width, keep) =
        let method = local_erase C value_default in
        let (servers', run, width', kept, change) =
          run_at-placed (Single C) none (value_at C) (place C n) method k k
            (λ held. (is_some held, value_default)) (λ held. none) servers (place-congr C n k)
            (rw width (mod_lt (key.hash k) n pos)) keep (erase-Serves C value_default n k) in
        (
          servers',
          rw
              (
                routed-run_at (counting n c) method (net.rpc method) servers (key.hash k) n k refl
                    width pos few,
                run,
              )
              refl,
          (width' ∙ width, kept),
          change,
        )

  -- On 1 to 65536 servers with empty multimaps, any series of Put, Get and Erase calls, by clients that
  -- count these servers, each near a server or far from all of them, through a network that runs what
  -- the servers have bound, returns with the answers of one map that was empty at first and keeps one
  -- value for each key, the last one put.
  pub issue-last_put :
      (net : Network C.Store) (value_default : V) (n : ℕ)
      (calls : List (Container × MultimapCall K V))
      → 0 < n
      → n ≤ 65536
      → issue (send net value_default n) (replicate n C.empty) calls
        ≡ some (one_map key_of (answer value_default) value_after calls (λ q. none))
  unfolding placed at_server values_in
  issue-last_put net value_default n calls pos few =
      issue-one_map
        (λ servers. (length servers ≡ n) × AllKeep (Single C) none (value_at C) (place C n) servers)
        (placed (Single C) none (value_at C) (place C n)) (send net value_default n) key_of
        (answer value_default) value_after (moves net value_default n pos few) (replicate n C.empty)
        calls (λ q. none) (length-replicate n C.empty, new_all C n)
        (λ q.
          replicate-all (λ o. at_server none (value_at C) o q ≡ none) n C.empty refl
            (ap (λ es. first_of (values_in q es)) C.elements-empty) (place C n q))
