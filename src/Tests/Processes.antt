-- ===== src/Tests/Processes.antt =====
-- Server lists, processes and containers at concrete texts.
use hcl.Base.{
  ℕ, ◌≡◌, ◌<◌, refl, true, false, List, [], ◌∷◌, Option, some, none, u32, ◌>>=◌, get_elem?, arith,
}
use hcl.CharStruct.{CharStruct}
use hcl.CharStruct.Text.{no_nul}
use hcl.Strings.{negsuc, lacks}
use hcl.ConfigurationManager.{ConfigurationManager, Files, read_servers, load_servers}
use hcl.ConfigurationManager.Hosts.{
  Entry, blank, once, several, node, count, AllEntries, print_list, expand, total,
  load_servers-print_list,
}
use hcl.RpcLib.{Engine, Rpc, call_endpoint}
use hcl.HclInternal.{
  Settings, Process, returned, load_uri, apply_settings, configure_internal_env, get_rpc, new_hcl,
  re_configure, to_i16,
}
use hcl.HclInternal.Numbered.{number_servers, load_uri-read_servers}
use hcl.HclInternal.Servers.{address, AllShort, default_text, own_engine}
use hcl.HclInternal.Start.{new_hcl-call_endpoint}
use hcl.HclInternal.Engines.{re_configure-engine}

-- "n1:2", an empty line and "n2"
abbrev entries : List Entry
entries = several (b'n' ∷ b'1' ∷ []) 2 ∷ blank ∷ once b'n' (b'2' ∷ []) ∷ []

entries-AllEntries : AllEntries entries
unfolding node count lacks
entries-AllEntries = (
  record {
    no_colon = refl;
    one_line = refl;
    clean = refl;
    short = omega arith;
    small = omega arith;
  },
  (
    record {
      no_colon = refl;
      one_line = refl;
      clean = refl;
      short = omega arith;
      small = omega arith;
    },
    (
      record {
        no_colon = refl;
        one_line = refl;
        clean = refl;
        short = omega arith;
        small = omega arith;
      },
      tt,
    ),
  ),
)

-- one file, whatever the path
abbrev files : Files
files path = some (print_list entries)

abbrev tcp : List ℕ
tcp = b't' ∷ b'c' ∷ b'p' ∷ []

abbrev pub conf : ConfigurationManager
conf = record {
  rpc_port = 9000;
  rpc_threads = 1;
  uri = default_text tcp;
  memory_allocated = 1024;
  is_server = true;
  my_server = 2;
  num_servers = 1;
  server_on_node = true;
  server_list_path = record { value = b'l' ∷ [] };
  server_list = [];
  backed_file_dir = record { value = [] };
  dyn_config = false;
}

load_servers-print_list_example :
    load_servers files conf
    ≡ some (
      expand entries,
      record conf { server_list = expand entries; num_servers = u32 (total entries) },
    )
load_servers-print_list_example = load_servers-print_list files conf entries entries-AllEntries refl

load_uri-read_servers_example :
    load_uri files 9000 (record { value = b'l' ∷ [] }) (default_text tcp)
    ≡ (read_servers (some (print_list entries)) >>= number_servers 9000 (default_text tcp) 0)
load_uri-read_servers_example =
    load_uri-read_servers files 9000 (record { value = b'l' ∷ [] }) (default_text tcp)

-- settings that leave all as it is but for the port
abbrev settings : ℕ → Settings
settings port = record {
  port = port;
  num_servers = 0;
  my_server_idx = negsuc 0;
  memory_allocated = 0;
  is_server = negsuc 0;
  is_server_on_node = negsuc 0;
  backed_file_dir = record { value = [] };
  server_list_path = record { value = [] };
  uri = record { value = [] };
}

abbrev endpoint_at : Engine → List ℕ → Option (List ℕ)
endpoint_at e a = some a

abbrev idle : Process (List ℕ)
idle = record { conf = conf; rpcs = []; engine = none; finalized = false }

n2 : get_elem? (expand entries) 2 ≡ some (record { value = b'n' ∷ b'2' ∷ [] })
unfolding expand node count
n2 = refl

n1 : get_elem? (expand entries) 1 ≡ some (record { value = b'n' ∷ b'1' ∷ [] })
unfolding expand node count
n1 = refl

entries-AllShort : AllShort tcp (expand entries)
unfolding expand node count lacks
entries-AllShort = ((refl, omega arith), ((refl, omega arith), ((refl, omega arith), tt)))

total-lt : total entries < 4294967296
unfolding total count
total-lt = omega arith

tcp-clean : (lacks b':' tcp ≡ true) × (no_nul tcp ≡ true)
unfolding lacks
tcp-clean = (refl, refl)

abbrev n1_text : CharStruct
n1_text = record { value = b'n' ∷ b'1' ∷ [] }

abbrev n2_text : CharStruct
n2_text = record { value = b'n' ∷ b'2' ∷ [] }

new_hcl-call_endpoint_example :
    (process' : Process (List ℕ)) × (r : Rpc (List ℕ)) × (new_hcl endpoint_at files none
        (settings 0)
        idle
      ≡ some (returned process'))
    × (get_rpc 9000 process' ≡ some r)
    × (process'.engine ≡ some (own_engine tcp 9000 true 2 n2_text))
    × (process'.conf.num_servers ≡ total entries)
    × (call_endpoint endpoint_at r 1
        ≡ endpoint_at (own_engine tcp 9000 true 2 n2_text) (address tcp 9000 1 n1_text))
unfolding apply_settings configure_internal_env
new_hcl-call_endpoint_example =
    new_hcl-call_endpoint endpoint_at files none (settings 0) idle conf tcp entries n2_text n1_text
      1 refl refl refl tcp-clean refl (entries-AllEntries, entries-AllShort, total-lt) n2 n1
      (λ e k host. (address tcp 9000 k host, refl))

abbrev first_engine : Engine
first_engine = own_engine tcp 9000 true 2 n2_text

abbrev first_rpc : Rpc (List ℕ)
first_rpc = record {
  is_server = true;
  my_server_index = 2;
  threads = 1;
  uris = [];
  thallium_server = some first_engine;
  thallium_client = first_engine;
  thallium_endpoints = [];
}

abbrev running : Process (List ℕ)
running = record {
  conf = conf;
  rpcs = (9000, first_rpc) ∷ [];
  engine = some first_engine;
  finalized = false;
}

re_configure-engine_example :
    (process' : Process (List ℕ)) × (r : Rpc (List ℕ)) × (re_configure endpoint_at files
        (settings 9500)
        running
      ≡ some (returned process'))
    × (get_rpc 9500 process' ≡ some r)
    × (call_endpoint endpoint_at r 1 ≡ endpoint_at first_engine (address tcp 9500 1 n1_text))
    × (r.thallium_server ≡ some first_engine)
    × (process'.engine ≡ some first_engine)
    × (get_rpc 9000 process' ≡ get_rpc 9000 running)
unfolding apply_settings get_rpc to_i16
re_configure-engine_example =
    re_configure-engine endpoint_at files (settings 9500) running tcp entries n2_text n1_text
      first_engine 9000 1 refl (omega arith) refl refl tcp-clean refl
      (entries-AllEntries, entries-AllShort) n2 n1 (omega arith)
      (λ e k host. (address tcp 9500 k host, refl))
