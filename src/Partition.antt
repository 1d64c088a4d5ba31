-- ===== src/Partition.antt =====
-- include/hcl/concurrent/unordered_map/unordered_map.h, lines 59 to 130: how the key space of the
-- concurrent unordered map is cut into one range for each server (initialize_tables, isLocal,
-- serverLocation). A key enters as its hash, the 64-bit number that HashFcn returns. Ranges has the
-- arithmetic of the ranges, Owner what the three functions have to do with each other.
mod Ranges
pub mod Owner
pub mod Setup
use hcl.Base.{
  ℕ, ◌+◌, ◌-◌, ◌*◌, Bool, ◌&&◌, Option, some, ltb, leb, if◌then◌else◌, u64, div?, mod?, uint64_max,
  ◌>>=◌, ◌>>◌, require,
}

-- the fields that initialize_tables sets
pub record Range : Type 0 where
  pub total_size : ℕ
  pub max_size : ℕ
  pub min_range : ℕ
  pub max_range : ℕ
  pub nservers : ℕ
  pub serverid : ℕ

-- the size of the range of server `rank`, and its first slot
pub max_size_of : ℕ → ℕ → ℕ → ℕ
max_size_of local_size rem rank = if ltb rank rem then local_size + 1 else local_size

min_range_of : ℕ → ℕ → ℕ → ℕ
min_range_of local_size rem rank =
    if ltb rank rem
    then u64 (rank * (local_size + 1))
    else u64 (rem * (local_size + 1) + (rank - rem) * local_size)

-- none: one of the two assertions fails, or np is 0
unfoldable pub initialize_tables : ℕ → ℕ → ℕ → Option Range
unfolding max_size_of min_range_of
initialize_tables n np rank = do
  require (ltb 0 n && ltb n uint64_max)
  local_size ← div? n np
  rem ← mod? n np
  let max_size = max_size_of local_size rem rank
  require (ltb 0 max_size && ltb max_size uint64_max)
  let min_range = min_range_of local_size rem rank
  some (record {
    total_size = n;
    max_size = max_size;
    min_range = min_range;
    max_range = u64 (min_range + max_size);
    nservers = np;
    serverid = rank;
  })

pub is_local : Bool → Range → ℕ → Option Bool
is_local is_server r hashval = do
  pos ← mod? hashval r.total_size
  some (is_server && (leb r.min_range pos && ltb pos r.max_range))

-- the branches of serverLocation; -1 as a uint64_t is what an impossible slot gets
location : ℕ → ℕ → ℕ → ℕ → ℕ → Option ℕ
location local_size rem v offset total_size =
    if ltb v total_size
    then (if ltb v offset
        then div? v (local_size + 1)
        else (div? (v - offset) local_size >>= λ q. some (u64 (rem + q))))
    else some uint64_max

-- `num_servers` is the field of the class container, and none a division by zero
pub server_location : ℕ → ℕ → ℕ → Option ℕ
unfolding location
server_location num_servers total_size hashval = do
  local_size ← div? total_size num_servers
  rem ← mod? total_size num_servers
  v ← mod? hashval total_size
  let offset = u64 (rem * (local_size + 1))
  location local_size rem v offset total_size
