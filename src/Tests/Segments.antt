-- ===== src/Tests/Segments.antt =====
-- Files of shared memory at concrete paths.
use hcl.Base.{◌≡◌, ◌≢◌, ℕ, refl, true, false, List, [], ◌∷◌, some, none, inr, arith}
use hcl.Strings.{lacks}
use hcl.RpcLib.{Rpc}
use hcl.HclInternal.{Process, get_rpc}
use hcl.Container.Files.{Mapped, Arguments, Opened, new_container}
use hcl.Container.Files.Paths.{Fits}
use hcl.Container.Files.Segments.{IsFor, new_container-segment}
use hcl.Tests.Processes.{conf}

abbrev dir : List ℕ
dir = b'd' ∷ []

abbrev map_name : List ℕ
map_name = b'm' ∷ []

abbrev pub rpc : Rpc (List ℕ)
rpc = record {
  is_server = true;
  my_server_index = 0;
  threads = 1;
  uris = [];
  thallium_server = none;
  thallium_client = record { address = []; server_mode = true };
  thallium_endpoints = [];
}

abbrev pub process : Process (List ℕ)
process = record { conf = conf; rpcs = (9000, rpc) ∷ []; engine = none; finalized = false }

-- `m` on the servers 1 and 2, and on a client of server 1
abbrev server_1 : Arguments
server_1 = record {
  name = record { value = map_name };
  port = 9000;
  num_servers = 3;
  my_server_idx = 1;
  memory_allocated = 1024;
  is_server = true;
  is_server_on_node = true;
  backed_file_dir = record { value = dir };
}

abbrev server_2 : Arguments
server_2 = record server_1 { my_server_idx = 2 }

abbrev client_1 : Arguments
client_1 = record server_1 { is_server = false }

abbrev pub no_files : Mapped
no_files = record { files = []; next_file = 0 }

ready : get_rpc 9000 process ≡ some rpc
unfolding get_rpc
ready = refl

server_1-Fits : Fits dir map_name 1
unfolding lacks
server_1-Fits = record {
  clean_dir = refl;
  clean_name = refl;
  room = omega arith;
  small = omega arith;
}

server_2-Fits : Fits dir map_name 2
unfolding lacks
server_2-Fits = record {
  clean_dir = refl;
  clean_name = refl;
  room = omega arith;
  small = omega arith;
}

server_1-IsFor : IsFor dir map_name 1 process server_1
server_1-IsFor = record { named = refl; folder = refl; index = refl; rpc = rpc; ready = ready }

server_2-IsFor : IsFor dir map_name 2 process server_2
server_2-IsFor = record { named = refl; folder = refl; index = refl; rpc = rpc; ready = ready }

client_1-IsFor : IsFor dir map_name 1 process client_1
client_1-IsFor = record { named = refl; folder = refl; index = refl; rpc = rpc; ready = ready }

new_container-segment_example :
    (o o' o'' : Opened) × (m' m'' : Mapped) × (new_container process server_1 no_files
      ≡ some (o, m'))
    × (new_container process server_2 m' ≡ some (o', m''))
    × (new_container process client_1 m'' ≡ some (o'', m''))
    × (o''.segment ≡ o.segment)
    × (o'.segment ≢ o.segment)
new_container-segment_example =
    new_container-segment process process process server_1 server_2 client_1 no_files
      (server_1-IsFor, refl) (server_2-IsFor, refl) (client_1-IsFor, refl, refl)
      (server_1-Fits, server_2-Fits) (inr (omega arith))
