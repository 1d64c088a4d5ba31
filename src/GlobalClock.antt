-- ===== src/GlobalClock.antt =====
-- The class global_clock, include/hcl/clock/global_clock.h and src/hcl/clock/global_clock.cpp: the time
-- since a server has started, asked for anywhere. A clock is the object of one process; `*start` stands in
-- the segment that it has mapped, and `starts` are the readings that the servers' constructors have put in
-- the segments. The reading at a call is an argument, and so is the number of ticks in a microsecond.
-- Times proves what the calls answer, SharedFile what the constructors share.
pub mod Times
pub mod SharedFile
use hcl.Base.{
  ℕ, ◌+◌, ◌-◌, ◌/◌, ◌^◌, Bool, List, [], ◌∷◌, ◌++◌, Option, some, none, leb, ◌||◌, ◌&&◌, ◌==◌, u64,
  div?, if◌then◌else◌, ◌>>=◌,
}
use hcl.CharStruct.{CharStruct, plus, plus_string}
use hcl.Strings.{to_string}
use hcl.Container.{Network}
use hcl.Container.Names.{Binding, Method, codes}
use hcl.Container.Files.{Mapped, underscore, map_segment, remove_file}
use hcl.HclInternal.{Process, get_rpc}

pub record GlobalClock : Type 0 where
  pub is_server : Bool
  pub memory_allocated : ℕ
  pub num_servers : ℕ
  pub my_server : ℕ
  pub segment : Option ℕ
  pub name : List ℕ
  pub func_prefix : List ℕ
  pub port : ℕ
  pub server_on_node : Bool
  pub backed_file : CharStruct

-- `HCL_CONF->BACKED_FILE_DIR + PATH_SEPARATOR + name_`
pub clock_file : CharStruct → List ℕ → Option CharStruct
clock_file backed_file_dir name_ =
    plus backed_file_dir (record { value = b'/' ∷ [] }) >>= λ folder. plus_string folder name_

-- the constructor, without the contents of the segment; `bindings` is what it binds on the RPC object of a
-- server. none: an exception, or a text that is too long
pub new_global_clock :
    {E : Type 0} → Process E → List ℕ → ℕ → Mapped → Option (GlobalClock × Mapped)
unfolding clock_file
new_global_clock process name_ _port m = do
  let conf = process.conf
  backed_file ← clock_file conf.backed_file_dir name_
  rpc ← get_rpc _port process
  (segment, m') ← map_segment conf.is_server conf.server_on_node backed_file.value m
  some (
    record {
      is_server = conf.is_server;
      memory_allocated = 134217728;
      num_servers = conf.num_servers;
      my_server = conf.my_server;
      segment = segment;
      name = name_ ++ (underscore ++ to_string conf.my_server);
      func_prefix = name_;
      port = _port;
      server_on_node = conf.server_on_node;
      backed_file = backed_file;
    },
    m',
  )

-- the name that the constructor binds on a server, and the name of the remote calls
abbrev pub bindings : List Binding
bindings = (codes "GetTime", Method.thallium_local_get_time) ∷ []

abbrev pub remote_calls : List Binding
remote_calls = (codes "GetTime", Method.thallium_local_get_time) ∷ []

-- the destructor
pub drop_global_clock : GlobalClock → Mapped → Mapped
drop_global_clock g m =
    if g.is_server then record m { files = remove_file g.backed_file.value m.files } else m

-- data(), lock() and unlock(): the segment whose start or mutex they use, if they do
pub clock_data : GlobalClock → Option ℕ
clock_data g = if g.server_on_node || g.is_server then g.segment else none

-- `duration_cast<microseconds>(t2 - *start).count()`, rounded to 0, as a uint64_t. none: there are no
-- ticks in a microsecond
pub microseconds : ℕ → ℕ → ℕ → Option ℕ
microseconds ticks t2 start =
    if leb start t2
    then (div? (t2 - start) ticks >>= λ t. some (u64 t))
    else (div? (start - t2) ticks >>= λ t. some (u64 (2 ^ 64 - u64 t)))

module _ (ticks : ℕ) (starts : ℕ → Option ℕ) where
  -- at a reading of the clock
  pub local_get_time : ℕ → GlobalClock → Option (ℕ × GlobalClock)
  unfolding microseconds
  local_get_time t2 g = do
    segment ← g.segment
    start ← starts segment
    t ← microseconds ticks t2 start
    some (t, g)

  module _ (net : Network GlobalClock) where
    -- GetTime and GetTimeServer, by the client `g`, at a reading of the clock where the call is answered
    pub get_time : GlobalClock → List GlobalClock → ℕ → Option (ℕ × List GlobalClock)
    unfolding local_get_time
    get_time g servers t2 =
        if g.server_on_node
        then (local_get_time t2 g >>= λ (t, g'). some (t, servers))
        else (net.rpc local_get_time).deliver servers g.my_server t2

    pub get_time_server : GlobalClock → List GlobalClock → ℕ → ℕ → Option (ℕ × List GlobalClock)
    unfolding local_get_time
    get_time_server g servers server t2 =
        if (g.my_server == server) && g.server_on_node
        then (local_get_time t2 g >>= λ (t, g'). some (t, servers))
        else (net.rpc local_get_time).deliver servers server t2
