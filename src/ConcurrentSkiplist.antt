-- ===== src/ConcurrentSkiplist.antt =====
-- include/hcl/concurrent/skiplist/skiplist.h and skiplist.cpp: the class concurrent_skiplist, a skip list
-- on each server, and each key on the server that the upper bits of its hash name. The skip list itself
-- (include/hcl/base/containers/concurrent_skiplist/) is adapted from the one of the folly library, and
-- enters as an interface with what its accessor promises. Place has which server gets a key, Members
-- what the calls answer.
pub mod Place
pub mod Members
use hcl.Container.Names.{Binding, Method, codes}
use hcl.Base.{
  [], ◌∷◌, ℕ, zero, suc, ◌+◌, ◌-◌, ◌*◌, ◌/◌, ◌^◌, ◌≡◌, refl, Bool, true, false, not, ◌&&◌, ◌||◌,
  List, Option, some, none, ltb, leb, ◌==◌, if◌then◌else◌, u16, u32, u64, uint64_max, bit_and,
  require, ◌>>=◌, ◌>>◌, is_some, arith,
}
use hcl.Container.{Network}
use hcl.HashKey.{HashKey, SortKey, ◌≈◌}

-- `insert(k).second`, `contains(k)` and `remove(k)` of an accessor
pub record Skiplist (K : Type 0) ⦃key : HashKey K⦄ : Type 1 where
  pub Store : Type 0
  pub empty : Store
  pub insert : K → Store → Bool × Store
  pub contains : K → Store → Bool
  pub remove : K → Store → Bool × Store
  pub contains-empty : (k : K) → contains k empty ≡ false
  pub contains_congr : (k q : K) (s : Store) → (k ≈ q) ≡ true → contains k s ≡ contains q s
  pub inserted : (k : K) (s : Store) → (insert k s).0 ≡ not (contains k s)
  pub contains-insert :
      (k : K) (s : Store) (q : K) → contains q (insert k s).1 ≡ ((k ≈ q) || contains q s)
  pub removed : (k : K) (s : Store) → (remove k s).0 ≡ contains k s
  pub contains-remove :
      (k : K) (s : Store) (q : K) → contains q (remove k s).1 ≡ (not (k ≈ q) && contains q s)

-- the fields that initialize_sets sets
pub record Sets : Type 0 where
  pub nservers : ℕ
  pub serverid : ℕ
  pub nbits : ℕ

-- The loop of power_of_two from `c` on, an int that must not overflow. 32 rounds are enough.
pub double_up : ℕ → ℕ → ℕ → Option ℕ
double_up zero n c = none
double_up (suc fuel) n c =
    let rest = double_up fuel n (2 * c) in
    if ltb c n then (if ltb (2 * c) 2147483648 then rest else none) else some c

pub power_of_two : ℕ → Option ℕ
unfolding double_up
power_of_two n = double_up 32 n 1

-- a uint32_t as an int, where no `c` is below a negative one
pub positive_int : ℕ → ℕ
positive_int n = if ltb n 2147483648 then n else 0

-- `log2` is that of the C library
pub initialize_sets : (log2 : ℕ → ℕ) → ℕ → ℕ → Option Sets
unfolding positive_int power_of_two
initialize_sets log2 np rank = do
  nservers_2 ← power_of_two (positive_int np)
  some (record { nservers = np; serverid = rank; nbits = log2 nservers_2 })

-- `x << n` on a uint64_t; none: the shift is not below the width, which has no defined result
pub shift_left : ℕ → ℕ → Option ℕ
shift_left x n = if ltb n 64 then some (u64 (x * 2 ^ n)) else none

pub shift_right : ℕ → ℕ → Option ℕ
shift_right x n = if ltb n 64 then some (x / 2 ^ n) else none

pub server_location : Sets → ℕ → Option ℕ
unfolding shift_left shift_right
server_location sets hash = do
  let hashval = u64 hash
  let rest = u64 (64 + (uint64_max + 1 - u64 sets.nbits))
  mask ← shift_left uint64_max rest
  id ← shift_right (bit_and hashval mask) rest
  some (if leb sets.nservers id then u32 (sets.nservers + 4294967295) else id)

pub is_local : Bool → Sets → ℕ → Option Bool
unfolding server_location
is_local is_server sets hash =
    if is_server
    then (server_location sets hash >>= λ id. some (id == sets.serverid))
    else some false

module _ {K : Type 0} ⦃key : HashKey K⦄ (L : Skiplist K) where
  pub local_insert : K → L.Store → Option (Bool × L.Store)
  local_insert k s = some (L.insert k s)

  pub local_find : K → L.Store → Option (Bool × L.Store)
  local_find k s = some (L.contains k s, s)

  pub local_erase : K → L.Store → Option (Bool × L.Store)
  local_erase k s = some (L.remove k s)

  -- the client methods, which are all remote
  module _ (net : Network L.Store) where
    pub insert : Sets → List L.Store → K → Option (Bool × List L.Store)
    unfolding server_location local_insert
    insert sets servers k = do
      location ← server_location sets (key.hash k)
      (net.rpc local_insert).deliver servers (u16 location) k

    pub find : Sets → List L.Store → K → Option (Bool × List L.Store)
    unfolding server_location local_find
    find sets servers k = do
      location ← server_location sets (key.hash k)
      (net.rpc local_find).deliver servers (u16 location) k

    pub erase : Sets → List L.Store → K → Option (Bool × List L.Store)
    unfolding server_location local_erase
    erase sets servers k = do
      location ← server_location sets (key.hash k)
      (net.rpc local_erase).deliver servers (u16 location) k

-- what bind_functions binds, and what the remote calls name, each with the method of its local branch
abbrev pub bindings : List Binding
bindings =
    (codes "Insert", Method.thallium_local_insert)
    ∷ (codes "Find", Method.thallium_local_find)
    ∷ (codes "Erase", Method.thallium_local_erase)
    ∷ []

abbrev pub remote_calls : List Binding
remote_calls =
    (codes "Insert", Method.thallium_local_insert)
    ∷ (codes "Find", Method.thallium_local_find)
    ∷ (codes "Erase", Method.thallium_local_erase)
    ∷ []
