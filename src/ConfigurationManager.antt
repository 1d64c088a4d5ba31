-- ===== src/ConfigurationManager.antt =====
-- The class ConfigurationManager, include/hcl/common/configuration_manager.h and
-- src/hcl/common/configuration_manager.cpp: the settings of a process, and the list of the servers, which
-- a file names line by line. The file system is a parameter: it gives the text at a path, or none where
-- no file can be opened there. Hosts has what the lines stand for.
pub mod Hosts
use hcl.Base.{
  ℕ, zero, suc, ◌+◌, Bool, true, false, List, [], ◌∷◌, ◌++◌, Option, some, none, length, ltb, u32,
  if◌then◌else◌, ◌>>=◌,
}
use hcl.CharStruct.{CharStruct, c_str, of_string, string}
use hcl.Strings.{ℤ, pos, negsuc, find, substr, atoi, get_lines}

pub record ConfigurationManager : Type 0 where
  pub rpc_port : ℕ
  pub rpc_threads : ℕ
  pub uri : CharStruct
  pub memory_allocated : ℕ
  pub is_server : Bool
  pub my_server : ℕ
  pub num_servers : ℕ
  pub server_on_node : Bool
  pub server_list_path : CharStruct
  pub server_list : List CharStruct
  pub backed_file_dir : CharStruct
  pub dyn_config : Bool

-- the constructor, where the library is built for the transport that `uri` names; `/dev/shm`
pub new_configuration_manager : CharStruct → ConfigurationManager
new_configuration_manager uri = record {
  rpc_port = 9000;
  rpc_threads = 1;
  uri = uri;
  memory_allocated = 134217728;
  is_server = false;
  my_server = 0;
  num_servers = 1;
  server_on_node = true;
  server_list_path = record { value = [] };
  server_list = [];
  backed_file_dir = record { value = b'/' ∷ b'd' ∷ b'e' ∷ b'v' ∷ b'/' ∷ b's' ∷ b'h' ∷ b'm' ∷ [] };
  dyn_config = false;
}

-- what can be opened and read
abbrev pub Files : Type 0
Files = List ℕ → Option (List ℕ)

-- one line, `node` or `node:count`: the node and the count
unfoldable pub read_line : List ℕ → Option (CharStruct × ℤ)
read_line file_line = elim (find (b':' ∷ []) file_line) [
  | some split_loc ↦ do
    node ← substr file_line 0 split_loc
    server_node_name ← of_string node
    slots ← substr file_line (split_loc + 1) (length file_line)
    count ← atoi (c_str slots)
    some (server_node_name, count)
  | none ↦ of_string file_line >>= λ server_node_name. some (server_node_name, pos 1)
]

-- the rounds of `for (int i = 0; i < count; ++i)`
unfoldable pub rounds : ℤ → ℕ
rounds (pos n) = n
rounds (negsuc n) = 0

unfoldable pub emplace_servers : ℕ → CharStruct → List CharStruct → List CharStruct
emplace_servers zero server_node_name server_list = server_list
emplace_servers (suc n) server_node_name server_list =
    emplace_servers n server_node_name (server_list ++ server_node_name ∷ [])

-- the loop over the lines
unfoldable pub load_lines : List (List ℕ) → List CharStruct → Option (List CharStruct)
unfolding read_line rounds emplace_servers
load_lines [] server_list = some server_list
load_lines ([] ∷ lines) server_list = load_lines lines server_list
load_lines ((c ∷ s) ∷ lines) server_list = do
  (server_node_name, count) ← read_line (c ∷ s)
  load_lines lines (emplace_servers (rounds count) server_node_name server_list)

-- the server list in a file; a file that cannot be opened lists no server
unfoldable pub read_servers : Option (List ℕ) → Option (List CharStruct)
unfolding load_lines
read_servers none = some []
read_servers (some file) = load_lines (get_lines file) []

pub load_servers : Files → ConfigurationManager → Option (List CharStruct × ConfigurationManager)
unfolding read_servers string
load_servers files c = do
  servers ← read_servers (files (string c.server_list_path))
  some (servers, record c { server_list = servers; num_servers = u32 (length servers) })

-- `if (server_list_path != "") SERVER_LIST_PATH = server_list_path`
pub take_path : List ℕ → ConfigurationManager → Option ConfigurationManager
take_path [] c = some c
take_path (x ∷ xs) c = of_string (x ∷ xs) >>= λ path. some (record c { server_list_path = path })

pub configure_default_client : Files → List ℕ → ConfigurationManager → Option ConfigurationManager
unfolding take_path load_servers
configure_default_client files server_list_path c = do
  c' ← take_path server_list_path c
  (servers, c'') ← load_servers files c'
  some (record c'' { is_server = false; my_server = 0; server_on_node = false })

pub configure_default_server : Files → List ℕ → ConfigurationManager → Option ConfigurationManager
unfolding take_path load_servers
configure_default_server files server_list_path c = do
  c' ← take_path server_list_path c
  (servers, c'') ← load_servers files c'
  some (record c'' { is_server = true; my_server = 0; server_on_node = true })
