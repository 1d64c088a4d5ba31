-- ===== src/Map/Series.antt =====
-- Put, Get and Erase of the map, by clients anywhere: the servers' maps together are one map.
use hcl.Base.{
  ap, ◌>>=◌, ℕ, ◌≡◌, ◌≤◌, ◌<◌, refl, sym, ◌∙◌, Bool, true, false, List, Option, some, none, is_some,
  length, arith,
}
use hcl.Container.{Container, Network}
use hcl.Container.Routed.{global, routed-global}
use hcl.Container.Series.{Step, Clients, send_all, answers, send_all-answers}
use hcl.HashKey.{HashKey, SortKey}
use hcl.Sorted.{SortedContainer, find_congr}
use hcl.Map.{first, local_put, local_get, local_erase, put, get, erase}

pub data MapCall (K V : Type 0) : Type 0 where
  put_call : K → V → MapCall K V
  get_call : K → MapCall K V
  erase_call : K → MapCall K V

pub data MapAnswer (V : Type 0) : Type 0 where
  done : Bool → MapAnswer V
  result : Bool × V → MapAnswer V

module _ {V : Type 0} where
  abbrev pub found : V → Option V → Bool × V
  found value_default none = (false, value_default)
  found value_default (some v) = (true, v)

module _ {K V : Type 0} where
  abbrev pub key_of : MapCall K V → K
  key_of (put_call k v) = k
  key_of (get_call k) = k
  key_of (erase_call k) = k

  -- what each call answers, and the value under its key afterwards; Erase does not tell the old value
  abbrev pub answer : V → MapCall K V → Option V → MapAnswer V
  answer value_default (put_call k v) o = done true
  answer value_default (get_call k) o = result (found value_default o)
  answer value_default (erase_call k) o = result (is_some o, value_default)

  abbrev pub value_after : MapCall K V → Option V → Option V
  value_after (put_call k v) o = some v
  value_after (get_call k) o = o
  value_after (erase_call k) o = none

  abbrev pub second : Option (K × V) → Option V
  second none = none
  second (some (k, v)) = some v

module _ {K V : Type 0} ⦃key : HashKey K⦄ ⦃sort : SortKey K⦄
    (C : SortedContainer {K = K} (first {K = K} {V = V})) where
  abbrev pub value_at : C.Store → K → Option V
  value_at s k = second (C.find k s)

  got :
      (value_default : V) (k : K) (s : C.Store)
      → local_get C value_default k s ≡ some (found value_default (value_at s k), s)
  unfolding local_get
  got value_default k s = ap (λ r. some (r, s)) (told (C.find k s))
    where
      told :
          (o : Option (K × V))
          → (elim o as (λ _. Bool × V) [ none ↦ (false, value_default) | some (j, v) ↦ (true, v) ])
            ≡ found value_default (second o)
      told none = refl
      told (some (j, v)) = refl

  module _ (net : Network C.Store) (value_default : V) where
    abbrev pub send : Container → List C.Store → MapCall K V → Option (MapAnswer V × List C.Store)
    send c servers (put_call k v) = put C net c servers (k, v) >>= λ (b, ss). some (done b, ss)
    send c servers (get_call k) =
        get C net value_default c servers k >>= λ (r, ss). some (result r, ss)
    send c servers (erase_call k) =
        erase C net value_default c servers k >>= λ (r, ss). some (result r, ss)

    step :
        (n : ℕ)
        → 0 < n
        → n ≤ 65536
        → Step none value_at send key_of (answer value_default) value_after n
    unfolding put get erase local_put local_get local_erase
    step n pos few c servers (put_call k v) width count =
        let (ss, run, width', changed) =
          routed-global none value_at (local_put C) (k, v) k (λ b. true) (λ b. some v) c
            (net.rpc (local_put C)) servers (count ∙ sym width) (rw width pos) (rw width few)
            (λ s. (
              C.insert_or_assign (k, v) s,
              refl,
              λ q. ground (arith, C.find-insert_or_assign (k, v) s q),
            )) in
        (ss, rw run refl, width', changed)
    step n pos few c servers (get_call k) width count =
        let (ss, run, width', changed) =
          routed-global none value_at (local_get C value_default) k k (found value_default) (λ o. o)
            c (net.rpc (local_get C value_default)) servers (count ∙ sym width) (rw width pos)
            (rw width few)
            (λ s. (s, got value_default k s, λ q. ground (arith, find_congr C k q s))) in
        (ss, rw run refl, width', changed)
    step n pos few c servers (erase_call k) width count =
        let (ss, run, width', changed) =
          routed-global none value_at (local_erase C value_default) k k
            (λ o. (is_some o, value_default)) (λ o. none) c (net.rpc (local_erase C value_default))
            servers (count ∙ sym width) (rw width pos) (rw width few)
            (λ s. (
              (C.erase k s).1,
              ground (arith, C.erased k s),
              λ q. ground (arith, C.find-erase k s q),
            )) in
        (ss, rw run refl, width', changed)

    -- Any series of Put, Get and Erase calls, by clients that count the servers alike, each near a server
    -- or far from all of them, through a network that runs what the servers have bound, returns with
    -- the answers of one map, the one that the servers hold between them at first.
    pub send_all-value_at :
        (servers : List C.Store) (calls : List (Container × MapCall K V))
        → 0 < length servers
        → length servers ≤ 65536
        → Clients (length servers) calls
        → send_all send servers calls
          ≡ some (
              answers key_of
                (answer value_default)
                value_after
                calls
                (global none value_at servers))
    send_all-value_at servers calls pos few counts =
        send_all-answers none value_at send key_of (answer value_default) value_after
          (length servers) (step (length servers) pos few) servers calls
          (global none value_at servers) refl counts (λ q. refl)
