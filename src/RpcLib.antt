-- ===== src/RpcLib.antt =====
-- The class RPC, include/hcl/communication/rpc_lib.h, rpc_lib_int.cpp and src/hcl/communication/rpc_lib.cpp,
-- and the template of include/hcl/common/singleton.h that keeps its engine: how a process starts the
-- transport, and which endpoint a call is sent to. thallium is a parameter: `lookup` gives the endpoint
-- that an engine finds at an address, or none where there is none. A copy of a URI that is made on the way
-- is the URI itself, as Uri/Copies shows.
use hcl.Base.{ℕ, Bool, true, false, List, [], ◌∷◌, Option, some, none, get_elem?, ◌>>=◌}
use hcl.CharStruct.{CharStruct}
use hcl.Uri.{Uri, new_uri}

-- a thallium engine, by what it is started with
pub record Engine : Type 0 where
  pub address : List ℕ
  pub server_mode : Bool

-- Singleton<T>::GetInstance(args...): the instance that is there, or else a new one
unfoldable pub get_instance {ℓ} : {A : Type ℓ} → Option A → A → A × Option A
get_instance none new = (new, some new)
get_instance (some instance_there) new = (instance_there, some instance_there)

pub record Rpc (E : Type 0) : Type 0 where
  pub is_server : Bool
  pub my_server_index : ℕ
  pub threads : ℕ
  pub uris : List Uri
  pub thallium_server : Option Engine
  pub thallium_client : Engine
  pub thallium_endpoints : List E

-- the part of run() for a server
unfoldable pub start_server : Bool → Uri → Option Engine → Option (Option Engine × Option Engine)
unfolding get_instance
start_server false own engine = some (none, engine)
start_server true own engine = do
  engine_init_str ← own.server_uri
  let (server, engine') =
      get_instance engine (record { address = engine_init_str.value; server_mode = true })
  some (some server, engine')

module _ {E : Type 0} (lookup : Engine → List ℕ → Option E) where
  unfoldable pub get_endpoint : Engine → Uri → Option E
  get_endpoint thallium_client server_uri =
      server_uri.client_uri >>= λ client_uri. lookup thallium_client client_uri.value

  -- the loop of init_engine_and_endpoints
  unfoldable pub get_endpoints : Engine → List Uri → Option (List E)
  unfolding get_endpoint
  get_endpoints thallium_client [] = some []
  get_endpoints thallium_client (uri ∷ uris) = do
    endpoint ← get_endpoint thallium_client uri
    endpoints ← get_endpoints thallium_client uris
    some (endpoint ∷ endpoints)

  -- the constructor, with run() and init_engine_and_endpoints(); `engine` is the instance of the singleton
  unfoldable pub new_rpc : Bool → ℕ → ℕ → List Uri → Option Engine → Option (Rpc E × Option Engine)
  unfolding start_server get_instance get_endpoints
  new_rpc is_server my_server_index threads uris engine = do
    own ← get_elem? uris my_server_index
    (server, engine') ← start_server is_server own engine
    endpoint_uri ← own.endpoint_uri
    let (client, engine'') =
        get_instance engine' (record { address = endpoint_uri.value; server_mode = false })
    endpoints ← get_endpoints client uris
    some (
      record {
        is_server = is_server;
        my_server_index = my_server_index;
        threads = threads;
        uris = uris;
        thallium_server = server;
        thallium_client = client;
        thallium_endpoints = endpoints;
      },
      engine'',
    )

  -- where call and callWithTimeout send a call for a server by its number
  unfoldable pub call_endpoint : Rpc E → ℕ → Option E
  call_endpoint r server_index = get_elem? r.thallium_endpoints server_index

  -- where call sends a call for a server by its name and port
  pub call_endpoint_at : Rpc E → CharStruct → ℕ → Option E
  unfolding get_endpoint
  call_endpoint_at r server port = do
    first ← get_elem? r.uris 0
    uri ← new_uri 0 first.user_uri server port
    get_endpoint r.thallium_client uri

  -- Stop(), which the destructor calls; `conf_is_server` is IS_SERVER at the time. none: there is no engine
  -- to finalize. The result tells whether the engine is finalized.
  unfoldable pub stop : Bool → Rpc E → Bool → Option Bool
  stop false r finalized = some finalized
  stop true r finalized = r.thallium_server >>= λ server. some true
