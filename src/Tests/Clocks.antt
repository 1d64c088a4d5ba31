-- ===== src/Tests/Clocks.antt =====
-- Clocks at concrete readings, and their files.
use hcl.Base.{
  Bool, Option, none, ◌==◌, if◌then◌else◌, ℕ, ◌+◌, ◌-◌, ◌*◌, ◌≡◌, ◌≢◌, ◌≤◌, ◌<◌, refl, true, false,
  List, [], ◌∷◌, some, arith,
}
use hcl.CharStruct.{CharStruct}
use hcl.Strings.{lacks}
use hcl.Container.{direct_network}
use hcl.Container.Files.{Mapped, find_file}
use hcl.HclInternal.{Process, get_rpc}
use hcl.GlobalClock.{GlobalClock, clock_file, new_global_clock, get_time, get_time_server}
use hcl.GlobalClock.Times.{Keeps, Shares, get_time_server_mono}
use hcl.GlobalClock.SharedFile.{Makes, clock_file-some, new_global_clock-segment}
use hcl.Tests.Segments.{process, rpc, no_files}

-- the clock of a process of server `i`, with the segment that it has mapped
abbrev clock_of : Bool → Bool → ℕ → Option ℕ → GlobalClock
clock_of is_server server_on_node i segment = record {
  is_server = is_server;
  memory_allocated = 134217728;
  num_servers = 2;
  my_server = i;
  segment = segment;
  name = [];
  func_prefix = [];
  port = 9000;
  server_on_node = server_on_node;
  backed_file = record { value = [] };
}

-- segment 4 is of server 0, and segment 3 of server 1
abbrev starts : ℕ → Option ℕ
starts segment = if segment == 3 then some 5000 else (if segment == 4 then some 7 else none)

abbrev clocks : List GlobalClock
clocks = clock_of true true 0 (some 4) ∷ clock_of true true 1 (some 3) ∷ []

clocks-Keeps : Keeps starts clocks 1 (clock_of true true 1 (some 3)) 3 5000
clocks-Keeps = record { there = refl; own_segment = refl; started = refl }

abbrev far_client : GlobalClock
far_client = clock_of false false 1 none

abbrev near_client : GlobalClock
near_client = clock_of false true 1 (some 3)

far_client-Shares : Shares 1 3 far_client
unfolding Shares
far_client-Shares own near = cc

near_client-Shares : Shares 1 3 near_client
unfolding Shares
near_client-Shares own near = refl

get_time_server_mono_example :
    (t t' : ℕ) × (get_time_server 1000 starts (direct_network GlobalClock) far_client clocks 1 9500
      ≡ some (t, clocks))
    × (get_time_server 1000 starts (direct_network GlobalClock) near_client clocks 1 12000
        ≡ some (t', clocks))
    × (get_time 1000 starts (direct_network GlobalClock) near_client clocks 9500 ≡ some (t, clocks))
    × (t ≤ t')
    × (t * 1000 ≤ 9500 - 5000)
    × (9500 - 5000 < (t + 1) * 1000)
get_time_server_mono_example =
    get_time_server_mono (direct_network GlobalClock) 1000 starts far_client near_client near_client
      clocks 1 (clock_of true true 1 (some 3)) 3 5000 9500 12000 (omega arith) clocks-Keeps
      (far_client-Shares, near_client-Shares, near_client-Shares)
      (omega arith, omega arith, omega arith) refl

abbrev clock_name : List ℕ
clock_name = b'c' ∷ []

abbrev file : CharStruct
file = record { value = b'/' ∷ b'c' ∷ [] }

folder : clock_file (record { value = [] }) clock_name ≡ some file
unfolding lacks
folder = clock_file-some [] clock_name (refl, refl) (omega arith)

abbrev near_process : Process (List ℕ)
near_process = record process { conf = record process.conf { is_server = false } }

server-Makes : Makes clock_name 9000 file process
unfolding get_rpc
server-Makes = record { folder = folder; rpc = rpc; ready = refl }

client-Makes : Makes clock_name 9000 file near_process
unfolding get_rpc
client-Makes = record { folder = folder; rpc = rpc; ready = refl }

new_global_clock-segment_example :
    (g g' g'' : GlobalClock) × (m' m'' : Mapped) × (new_global_clock process clock_name 9000
        no_files
      ≡ some (g, m'))
    × (new_global_clock process clock_name 9000 m' ≡ some (g', m''))
    × (new_global_clock near_process clock_name 9000 m'' ≡ some (g'', m''))
    × (g''.segment ≡ g'.segment)
    × (g'.segment ≢ g.segment)
    × (find_file file.value m''.files ≡ g'.segment)
new_global_clock-segment_example =
    new_global_clock-segment clock_name 9000 file process process near_process no_files
      (server-Makes, refl) (server-Makes, refl) (client-Makes, refl, refl)
