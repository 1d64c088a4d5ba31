-- ===== src/UnorderedMap/Series.antt =====
-- The server that Put chooses against the one that Get and Erase choose, and the calls of the unordered
-- map by clients anywhere.
use hcl.Base.{
  inr, inl, Option-cases, ℕ, ◌%◌, ◌≡◌, ◌≤◌, ◌<◌, ◌↔◌, refl, sym, ◌∙◌, ap, Bool, true, false, List,
  Option, some, none, is_some, length, arith, if◌then◌else◌, u16, mod?-pos, ◌>>=◌,
}
use mathlib.Core.Option.{some-injective}
use native.Mathlib.Nat.{mod-mod_of_dvd, dvd_of_mod-eq-zero}
use hcl.Container.{Container, Network, routed, key_server}
use hcl.Container.Calls.{key_server-lt}
use hcl.Container.Routed.{global, routed-global}
use hcl.Container.Series.{Step, Clients, send_all, answers, send_all-answers}
use hcl.HashKey.{HashKey, ◌≈◌}
use hcl.UnorderedMap.{HashMap, put_server, local_put, local_get, local_erase, put, get, erase}

zero_mod : (n : ℕ) → 0 < n → 0 % n ≡ 0
zero_mod n pos = grind arith

module _ (c : Container) (pos : 0 < c.num_servers) (few : c.num_servers ≤ 65536) where
  put_server-mod : (h : ℕ) → put_server c h ≡ some ((h % 65536) % c.num_servers)
  unfolding put_server u16
  put_server-mod h = mod?-pos (h % 65536) c.num_servers pos

  key_server-mod : (h : ℕ) → key_server c h ≡ some (h % c.num_servers)
  key_server-mod h = let (i, found, _, e) = key_server-lt c h pos few in found ∙ ap some e

  -- For at most 65536 servers, Put chooses the server that Get and Erase choose, for every hash, just if
  -- the number of servers divides 65536.
  pub put_server-key_server :
      ((h : ℕ) → put_server c h ≡ key_server c h) ↔ (65536 % c.num_servers ≡ 0)
  put_server-key_server = (
    λ same.
        some-injective _ _ (sym (key_server-mod 65536) ∙ sym (same 65536) ∙ put_server-mod 65536)
        ∙ zero_mod c.num_servers pos,
    λ divides h.
        put_server-mod h
        ∙ ap some (mod-mod_of_dvd c.num_servers h (dvd_of_mod-eq-zero c.num_servers divides))
        ∙ sym (key_server-mod h),
  )

pub data UnorderedMapCall (K V : Type 0) : Type 0 where
  put_call : K → V → UnorderedMapCall K V
  get_call : K → UnorderedMapCall K V
  erase_call : K → UnorderedMapCall K V

pub data UnorderedMapAnswer (V : Type 0) : Type 0 where
  done : Bool → UnorderedMapAnswer V
  result : Bool × V → UnorderedMapAnswer V

module _ {V : Type 0} where
  abbrev pub found : V → Option V → Bool × V
  found value_default none = (false, value_default)
  found value_default (some v) = (true, v)

module _ {K V : Type 0} where
  abbrev pub key_of : UnorderedMapCall K V → K
  key_of (put_call k v) = k
  key_of (get_call k) = k
  key_of (erase_call k) = k

  -- what each call answers, and the value under its key afterwards; Erase does not tell the old value
  abbrev pub answer : V → UnorderedMapCall K V → Option V → UnorderedMapAnswer V
  answer value_default (put_call k v) o = done true
  answer value_default (get_call k) o = result (found value_default o)
  answer value_default (erase_call k) o = result (is_some o, value_default)

  abbrev pub value_after : UnorderedMapCall K V → Option V → Option V
  value_after (put_call k v) o = some v
  value_after (get_call k) o = o
  value_after (erase_call k) o = none

module _ {K V : Type 0} ⦃key : HashKey K⦄ (H : HashMap K V) (value_default : V) where
  abbrev pub value_of : H.Store → K → Option V
  value_of s k = H.find k s

  got :
      (k : K) (s : H.Store)
      → local_get H value_default k s ≡ some (found value_default (value_of s k), s)
  unfolding local_get
  got k s = ap (λ r. some (r, s)) (told (H.find k s))
    where
      told :
          (o : Option V)
          → (elim o as (λ _. Bool × V) [ none ↦ (false, value_default) | some v ↦ (true, v) ])
            ≡ found value_default o
      told none = refl
      told (some v) = refl

  erased :
      (k : K) (s : H.Store)
      → (s' : H.Store) × (local_erase H value_default k s
          ≡ some ((is_some (value_of s k), value_default), s'))
        × ((q : K) → value_of s' q ≡ (if k ≈ q then none else value_of s q))
  unfolding local_erase
  erased k s = elim (Option-cases (H.find k s)) [
    | inl gone ↦ (s, rw (gone, local_erase) refl, λ q. ground (arith, gone, H.find_congr k q s))
    | inr (v, there) ↦ (H.erase k s, rw (there, local_erase) refl, λ q. H.find-erase k s q)
  ]

  module _ (net : Network H.Store) where
    abbrev pub send :
        Container
        → List H.Store
        → UnorderedMapCall K V
        → Option (UnorderedMapAnswer V × List H.Store)
    send c servers (put_call k v) =
        put H value_default net c servers (k, v) >>= λ (b, ss). some (done b, ss)
    send c servers (get_call k) =
        get H value_default net c servers k >>= λ (r, ss). some (result r, ss)
    send c servers (erase_call k) =
        erase H value_default net c servers k >>= λ (r, ss). some (result r, ss)

    step :
        (n : ℕ)
        → 0 < n
        → n ≤ 65536
        → 65536 % n ≡ 0
        → Step none value_of send key_of (answer value_default) value_after n
    unfolding put get erase routed local_put
    step n pos few divides c servers (put_call k v) width count =
        let method = local_put H value_default in
        let (ss, run, width', changed) =
          routed-global none value_of method (k, v) k (λ b. true) (λ b. some v) c (net.rpc method)
            servers (count ∙ sym width) (rw width pos) (rw width few)
            (λ s. (_, refl, λ q. H.find-insert_or_assign k v s q)) in
        let same =
          (put_server-key_server c (rw count pos) (rw count few)).1 (rw count divides)
            (key.hash k) in
        (ss, rw (same, run) refl, width', changed)
    step n pos few divides c servers (get_call k) width count =
        let method = local_get H value_default in
        let (ss, run, width', changed) =
          routed-global none value_of method k k (found value_default) (λ o. o) c (net.rpc method)
            servers (count ∙ sym width) (rw width pos) (rw width few)
            (λ s. (s, got k s, λ q. ground (arith, H.find_congr k q s))) in
        (ss, rw run refl, width', changed)
    step n pos few divides c servers (erase_call k) width count =
        let method = local_erase H value_default in
        let (ss, run, width', changed) =
          routed-global none value_of method k k (λ o. (is_some o, value_default)) (λ o. none) c
            (net.rpc method) servers (count ∙ sym width) (rw width pos) (rw width few)
            (λ s. erased k s) in
        (ss, rw run refl, width', changed)

    -- On a number of servers that divides 65536, any series of Put, Get and Erase calls, by clients that
    -- count the servers alike, each near a server or far from all of them, through a network that runs
    -- what the servers have bound, returns with the answers of one map, the one that the servers hold
    -- between them at first.
    pub send_all-value_of :
        (servers : List H.Store) (calls : List (Container × UnorderedMapCall K V))
        → 0 < length servers
        → length servers ≤ 65536
        → 65536 % length servers ≡ 0
        → Clients (length servers) calls
        → send_all send servers calls
          ≡ some (
              answers key_of
                (answer value_default)
                value_after
                calls
                (global none value_of servers))
    send_all-value_of servers calls pos few divides counts =
        send_all-answers none value_of send key_of (answer value_default) value_after
          (length servers) (step (length servers) pos few divides) servers calls
          (global none value_of servers) refl counts (λ q. refl)
