-- ===== src/HclInternal.antt =====
-- The class HCL, include/hcl/hcl_internal.h and src/hcl/hcl_internal.cpp: the settings of a process and the
-- RPC objects that it has for its ports. The file system, the environment and thallium are parameters.
-- Servers proves what the RPC objects know of the servers, Engines what they share.
pub mod Numbered
pub mod Servers
pub mod Endpoints
pub mod Start
pub mod Engines
use hcl.Base.{
  ℕ, zero, suc, ◌+◌, ◌-◌, ◌%◌, Bool, true, false, not, ◌&&◌, ◌||◌, List, [], ◌∷◌, ◌++◌, Option,
  some, none, length, ltb, ◌==◌, u16, u32, if◌then◌else◌, ◌>>=◌,
}
use hcl.CharStruct.{CharStruct, of_chars, string, size}
use hcl.Strings.{ℤ, pos, negsuc, get_lines}
use hcl.Uri.{Uri, new_uri}
use hcl.ConfigurationManager.{ConfigurationManager, Files, read_line, rounds}
use hcl.RpcLib.{Engine, Rpc, new_rpc, stop}

-- the arguments of the constructor, of GetInstance and of ReConfigure; -1 and 0 and the empty text leave a
-- setting as it is
pub record Settings : Type 0 where
  pub port : ℕ
  pub num_servers : ℕ
  pub my_server_idx : ℤ
  pub memory_allocated : ℕ
  pub is_server : ℤ
  pub is_server_on_node : ℤ
  pub backed_file_dir : CharStruct
  pub server_list_path : CharStruct
  pub uri : CharStruct

-- conversion of an int to uint16_t, and to int16_t
unfoldable pub to_u16 : ℤ → ℕ
to_u16 (pos n) = n % 65536
to_u16 (negsuc n) = 65535 - n % 65536

unfoldable pub to_i16 : ℤ → ℤ
unfolding to_u16
to_i16 x = if ltb (to_u16 x) 32768 then pos (to_u16 x) else negsuc (65535 - to_u16 x)

unfoldable pub is_minus_one : ℤ → Bool
is_minus_one (pos n) = false
is_minus_one (negsuc n) = n == 0

unfoldable pub is_one : ℤ → Bool
is_one (pos n) = n == 1
is_one (negsuc n) = false

-- the process: what the class HCL and the singletons keep
pub record Process (E : Type 0) : Type 0 where
  pub conf : ConfigurationManager
  pub rpcs : List (ℕ × Rpc E)
  pub engine : Option Engine
  pub finalized : Bool

-- a call that returns, or ends with an exception; the state is there in both cases
pub data Outcome (A : Type 0) : Type 0 where
  returned : A → Outcome A
  thrown : A → Outcome A

-- `for (int i = 0; i < count; ++i)` in LoadURI, with server_index
unfoldable pub push_uris : ℕ → ℕ → CharStruct → CharStruct → List Uri → ℕ → Option (List Uri × ℕ)
push_uris zero _port _uri server_node_name uris server_index = some (uris, server_index)
push_uris (suc n) _port _uri server_node_name uris server_index = do
  server_uri ← new_uri server_index _uri server_node_name (u16 (_port + server_index))
  push_uris n _port _uri server_node_name (uris ++ server_uri ∷ []) (u16 (server_index + 1))

-- the loop over the lines
unfoldable pub load_uri_lines : List (List ℕ) → ℕ → CharStruct → List Uri → ℕ → Option (List Uri)
unfolding push_uris read_line rounds
load_uri_lines [] _port _uri uris server_index = some uris
load_uri_lines ([] ∷ lines) _port _uri uris server_index =
    load_uri_lines lines _port _uri uris server_index
load_uri_lines ((c ∷ s) ∷ lines) _port _uri uris server_index = do
  (server_node_name, count) ← read_line (c ∷ s)
  (uris', server_index') ← push_uris (rounds count) _port _uri server_node_name uris server_index
  load_uri_lines lines _port _uri uris' server_index'

unfoldable pub load_uri : Files → ℕ → CharStruct → CharStruct → Option (List Uri)
unfolding load_uri_lines string
load_uri files _port _server_list_path _uri = elim (files (string _server_list_path)) [
  | none ↦ some []
  | some file ↦ load_uri_lines (get_lines file) _port _uri [] 0
]

-- the setting of the environment variable HCL_THALLIUM_URI, if it is there
unfoldable pub configure_internal_env :
    Option (List ℕ) → ConfigurationManager → Option ConfigurationManager
configure_internal_env none c = some c
configure_internal_env (some uri_str) c = of_chars uri_str >>= λ uri. some (record c { uri = uri })

-- the assignments at the start of ConfigureInternal
unfoldable pub apply_settings : Settings → ConfigurationManager → ConfigurationManager
unfolding to_u16 is_minus_one is_one size
apply_settings s c = record c {
  rpc_port = if s.port == 0 then c.rpc_port else s.port;
  num_servers = if s.num_servers == 0 then c.num_servers else s.num_servers;
  my_server = if is_minus_one s.my_server_idx then c.my_server else to_u16 s.my_server_idx;
  memory_allocated = if s.memory_allocated == 0 then c.memory_allocated else s.memory_allocated;
  is_server = if is_minus_one s.is_server then c.is_server else is_one s.is_server;
  server_on_node =
      if is_minus_one s.is_server_on_node then c.server_on_node else is_one s.is_server_on_node;
  backed_file_dir = if size s.backed_file_dir == 0 then c.backed_file_dir else s.backed_file_dir;
  server_list_path =
      if size s.server_list_path == 0 then c.server_list_path else s.server_list_path;
  uri = if size s.uri == 0 then c.uri else s.uri;
}

-- a new list or a new uri is asked for
unfoldable pub names_servers : Settings → Bool
unfolding size
names_servers s = not (size s.server_list_path == 0) || not (size s.uri == 0)

-- `if (uris.size() != conf->NUM_SERVERS) conf->NUM_SERVERS = uris.size()`
unfoldable pub match_list : List Uri → ConfigurationManager → ConfigurationManager
match_list uris c =
    if length uris == c.num_servers then c else record c { num_servers = u32 (length uris) }

module _ {E : Type 0} where
  unfoldable pub find_rpc : ℕ → List (ℕ × Rpc E) → Option (Rpc E)
  find_rpc port [] = none
  find_rpc port ((p, r) ∷ rpcs) =
      let rest = find_rpc port rpcs in if p == port then some r else rest

  unfoldable pub insert_or_assign : ℕ → Rpc E → List (ℕ × Rpc E) → List (ℕ × Rpc E)
  insert_or_assign port r [] = (port, r) ∷ []
  insert_or_assign port r ((p, r') ∷ rpcs) =
      let rest = (p, r') ∷ insert_or_assign port r rpcs in
      if p == port then (port, r) ∷ rpcs else rest

  -- GetRPC; none: the exception
  unfoldable pub get_rpc : ℕ → Process E → Option (Rpc E)
  unfolding find_rpc
  get_rpc server_port process = find_rpc server_port process.rpcs

module _ {E : Type 0} (lookup : Engine → List ℕ → Option E) where
  -- the destructor of an RPC object that the map has held, if there was one
  unfoldable pub release : Bool → Option (Rpc E) → Bool → Option Bool
  release conf_is_server none finalized = some finalized
  release conf_is_server (some r) finalized = stop lookup conf_is_server r finalized

  unfoldable pub create_rpc : ℕ → List Uri → Process E → Option (Process E)
  unfolding find_rpc insert_or_assign release new_rpc
  create_rpc server_port uris process = do
    let c = process.conf
    (r, engine) ← new_rpc lookup c.is_server c.my_server c.rpc_threads uris process.engine
    finalized ← release c.is_server (find_rpc server_port process.rpcs) process.finalized
    some (record process {
      rpcs = insert_or_assign server_port r process.rpcs;
      engine = engine;
      finalized = finalized;
    })

  -- the last part of ConfigureInternal
  unfoldable pub reload : Files → Process E → Option (Process E)
  unfolding load_uri match_list create_rpc
  reload files process = do
    let c = process.conf
    uris ← load_uri files c.rpc_port c.server_list_path c.uri
    create_rpc c.rpc_port uris (record process { conf = match_list uris c })

  unfoldable pub configure_internal :
      Files → Bool → Settings → Process E → Option (Outcome (Process E))
  unfolding apply_settings names_servers reload
  configure_internal files initialize s process =
      let previous_port = process.conf.rpc_port in
      let process' = record process { conf = apply_settings s process.conf } in
      let same_port = previous_port == process'.conf.rpc_port in
      if not initialize && same_port && names_servers s
      then some (thrown process')
      else (if initialize || names_servers s || not same_port
          then (reload files process' >>= λ process''. some (returned process''))
          else some (returned process'))

  -- the constructor, in a process that has no RPC object
  unfoldable pub new_hcl :
      Files → Option (List ℕ) → Settings → Process E → Option (Outcome (Process E))
  unfolding configure_internal_env configure_internal
  new_hcl files env s process = do
    c ← configure_internal_env env process.conf
    configure_internal files true s (record process { conf = c; rpcs = [] })

  -- ReConfigure, which passes the number of the server on as an int16_t
  unfoldable pub re_configure : Files → Settings → Process E → Option (Outcome (Process E))
  unfolding configure_internal to_i16
  re_configure files s process =
      configure_internal files false (record s { my_server_idx = to_i16 s.my_server_idx }) process

  -- `rpcs.clear()`
  unfoldable pub release_all : Bool → List (ℕ × Rpc E) → Bool → Option Bool
  unfolding release
  release_all conf_is_server [] finalized = some finalized
  release_all conf_is_server ((port, r) ∷ rpcs) finalized = do
    finalized' ← release conf_is_server (some r) finalized
    release_all conf_is_server rpcs finalized'

  pub finalize : Process E → Option (Process E)
  unfolding release_all
  finalize process = do
    finalized ← release_all process.conf.is_server process.rpcs process.finalized
    some (record process { rpcs = []; finalized = finalized })

  -- GetInstance: `instance` is the static one, and none where there is none yet
  pub hcl_instance :
      Files
      → Option (List ℕ)
      → Bool
      → Settings
      → Process E
      → (instance_there : Bool) → Option (Outcome (Process E))
  unfolding new_hcl to_i16
  hcl_instance files env initialize s process true = some (returned process)
  hcl_instance files env false s process false = some (thrown process)
  hcl_instance files env true s process false =
      new_hcl files env (record s { my_server_idx = to_i16 s.my_server_idx }) process
