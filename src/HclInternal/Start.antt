-- ===== src/HclInternal/Start.antt =====
-- A process that starts on a server list: where it sends its calls, and where it listens itself.
use hcl.Base.{
  ℕ, ◌^◌, ◌≡◌, ◌<◌, refl, ◌∙◌, ap, Bool, true, List, [], ◌∷◌, Option, some, none, length, get_elem?,
  u32, ==_refl, arith,
}
use hcl.CharStruct.{CharStruct}
use hcl.CharStruct.Text.{no_nul}
use hcl.Strings.{lacks}
use hcl.Uri.{Uri}
use hcl.ConfigurationManager.{ConfigurationManager, Files}
use hcl.ConfigurationManager.Hosts.{Entry, AllEntries, print_list, expand, total, length-expand}
use hcl.RpcLib.{Engine, Rpc, call_endpoint}
use hcl.HclInternal.{
  Settings, Process, returned, configure_internal_env, apply_settings, match_list, get_rpc,
  load_uri, create_rpc, reload, new_hcl,
}
use hcl.HclInternal.Servers.{
  address, AllShort, default_text, plain_uris, own_engine, own_server, load_uri-plain_uris,
  length-plain_uris,
}
use hcl.HclInternal.Endpoints.{endpoints, get_elem?-endpoints, new_rpc-endpoints}

match_list-num_servers :
    (uris : List Uri) (c : ConfigurationManager)
    → length uris < 2 ^ 32
    → (match_list uris c).num_servers ≡ length uris
unfolding match_list u32
match_list-num_servers uris c lt = ground arith

pub match_list-is_server :
    (uris : List Uri) (c : ConfigurationManager) → (match_list uris c).is_server ≡ c.is_server
unfolding match_list
match_list-is_server uris c = ground arith

pub match_list-my_server :
    (uris : List Uri) (c : ConfigurationManager) → (match_list uris c).my_server ≡ c.my_server
unfolding match_list
match_list-my_server uris c = ground arith

pub match_list-rpc_threads :
    (uris : List Uri) (c : ConfigurationManager) → (match_list uris c).rpc_threads ≡ c.rpc_threads
unfolding match_list
match_list-rpc_threads uris c = ground arith

module _ {E : Type 0} (lookup : Engine → List ℕ → Option E) (protocol : List ℕ)
    (c : ConfigurationManager)
    (found : (e : Engine) (k : ℕ) (host : CharStruct)
      → (x : E) × (lookup e (address protocol c.rpc_port k host) ≡ some x))
    (hosts : List CharStruct) (own : CharStruct) where
  abbrev engine : Engine
  engine = own_engine protocol c.rpc_port c.is_server c.my_server own

  -- the RPC object
  abbrev first_rpc : Rpc E
  first_rpc = record {
    is_server = c.is_server;
    my_server_index = c.my_server;
    threads = c.rpc_threads;
    uris = plain_uris protocol c.rpc_port 0 hosts;
    thallium_server = own_server protocol c.rpc_port c.is_server c.my_server own;
    thallium_client = engine;
    thallium_endpoints = endpoints lookup protocol c.rpc_port found engine 0 hosts;
  }

  abbrev fresh : Bool → Process E
  fresh finalized = record { conf = c; rpcs = []; engine = none; finalized = finalized }

  -- the process behind the start
  abbrev started : Bool → Process E
  started finalized = record {
    conf = match_list (plain_uris protocol c.rpc_port 0 hosts) c;
    rpcs = (c.rpc_port, first_rpc) ∷ [];
    engine = some engine;
    finalized = finalized;
  }

  reload-started :
      (files : Files) (finalized : Bool)
      → load_uri files c.rpc_port c.server_list_path c.uri
        ≡ some (plain_uris protocol c.rpc_port 0 hosts)
      → get_elem? hosts c.my_server ≡ some own
      → reload lookup files (fresh finalized) ≡ some (started finalized)
  unfolding reload create_rpc
  reload-started files finalized loaded mine =
      let uris = plain_uris protocol c.rpc_port 0 hosts in
      rw
        (
          loaded,
          match_list-is_server uris c,
          match_list-my_server uris c,
          match_list-rpc_threads uris c,
          new_rpc-endpoints lookup protocol c.rpc_port found c.is_server c.my_server c.rpc_threads
              hosts own mine,
        )
        refl

-- A process with no engine starts on a server list: a file with a line for each entry, its nodes short
-- enough for their addresses, fewer than 2^32 servers, its own number on the list, and the address
-- `protocol://` as its URI, behind the environment and the arguments; thallium finds an endpoint at each
-- address of this form. Then the constructor of HCL returns; GetRPC gives an RPC object for the port,
-- which sends a call for server `j` to the endpoint at `protocol://node:port+j`, the node being the one
-- at place `j` of the list; a server listens at the address at which the others look for it, and
-- NUM_SERVERS is the length of the list.
pub new_hcl-call_endpoint :
    {E : Type 0} (lookup : Engine → List ℕ → Option E) (files : Files) (env : Option (List ℕ))
    (s : Settings) (process : Process E) (conf : ConfigurationManager) (protocol : List ℕ)
    (es : List Entry) (own host : CharStruct) (j : ℕ)
    → configure_internal_env env process.conf ≡ some conf
    → let c = apply_settings s conf in
      process.engine ≡ none
      → c.uri ≡ default_text protocol
      → (lacks b':' protocol ≡ true) × (no_nul protocol ≡ true)
      → files c.server_list_path.value ≡ some (print_list es)
      → AllEntries es × AllShort protocol (expand es) × (total es < 2 ^ 32)
      → get_elem? (expand es) c.my_server ≡ some own
      → get_elem? (expand es) j ≡ some host
      → ((e : Engine) (k : ℕ) (h : CharStruct)
          → (x : E) × (lookup e (address protocol c.rpc_port k h) ≡ some x))
      → (process' : Process E) × (r : Rpc E) × (new_hcl lookup files env s process
          ≡ some (returned process'))
        × (get_rpc c.rpc_port process' ≡ some r)
        × (process'.engine ≡ some (own_engine protocol c.rpc_port c.is_server c.my_server own))
        × (process'.conf.num_servers ≡ total es)
        × (call_endpoint lookup r j
            ≡ lookup
                (own_engine protocol c.rpc_port c.is_server c.my_server own)
                (address protocol c.rpc_port j host))
unfolding new_hcl get_rpc call_endpoint
new_hcl-call_endpoint lookup files env s process conf protocol es own host j env' no_engine uri
      (free, clean) file (entries, short, few) mine there found =
    let c = apply_settings s conf in
    let hosts = expand es in
    let e = own_engine protocol c.rpc_port c.is_server c.my_server own in
    let loaded : load_uri files c.rpc_port c.server_list_path c.uri
        ≡ some (plain_uris protocol c.rpc_port 0 hosts) =
      rw uri (
        load_uri-plain_uris protocol free clean c.rpc_port files c.server_list_path es file entries
          short) in
    let size' : length (plain_uris protocol c.rpc_port 0 hosts) ≡ total es =
      length-plain_uris protocol c.rpc_port 0 hosts ∙ length-expand es in
    (
      started lookup protocol c found hosts own process.finalized,
      first_rpc lookup protocol c found hosts own,
      rw
          (
            env',
            no_engine,
            reload-started lookup protocol c found hosts own files process.finalized loaded mine,
          )
          refl,
      rw (==_refl c.rpc_port) refl,
      refl,
      match_list-num_servers (plain_uris protocol c.rpc_port 0 hosts) c (omega arith) ∙ size',
      get_elem?-endpoints lookup protocol c.rpc_port found e j 0 hosts host there
          ∙ ap (λ n. lookup e (address protocol c.rpc_port n host)) (omega arith),
    )
