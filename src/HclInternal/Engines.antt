-- ===== src/HclInternal/Engines.antt =====
-- A process that is configured again: what the RPC object of a new port shares with those before it.
use hcl.Base.{
  ℕ, ◌≡◌, ◌≢◌, refl, ◌∙◌, ap, sym, Bool, true, false, List, [], ◌∷◌, Option, some, none, get_elem?,
  ◌==◌, ==_refl, if◌then◌else◌, Bool-cases, inl, inr, ◌>>=◌, arith,
}
use hcl.CharStruct.{CharStruct}
use hcl.CharStruct.Text.{no_nul}
use hcl.Strings.{lacks}
use hcl.ConfigurationManager.{ConfigurationManager, Files}
use hcl.ConfigurationManager.Hosts.{Entry, AllEntries, print_list, expand}
use hcl.RpcLib.{Engine, Rpc, call_endpoint}
use hcl.HclInternal.{
  Settings, Process, returned, to_i16, apply_settings, match_list, find_rpc, insert_or_assign,
  get_rpc, release, load_uri, create_rpc, reload, configure_internal, re_configure, names_servers,
}
use hcl.HclInternal.Servers.{address, AllShort, default_text, plain_uris, load_uri-plain_uris}
use hcl.HclInternal.Endpoints.{endpoints, get_elem?-endpoints, new_rpc-later}
use hcl.HclInternal.Start.{match_list-is_server, match_list-my_server, match_list-rpc_threads}

module _ {E : Type 0} where
  find_rpc-insert_or_assign :
      (q port : ℕ) (r : Rpc E) (rpcs : List (ℕ × Rpc E))
      → find_rpc q (insert_or_assign port r rpcs) ≡ (if q == port then some r else find_rpc q rpcs)
  unfolding find_rpc insert_or_assign
  find_rpc-insert_or_assign q port r [] = ground arith
  find_rpc-insert_or_assign q port r ((p, r') ∷ rpcs) =
      ground (arith, find_rpc-insert_or_assign q port r rpcs)

module _ {E : Type 0} (lookup : Engine → List ℕ → Option E) (protocol : List ℕ)
    (c : ConfigurationManager)
    (found : (e : Engine) (k : ℕ) (host : CharStruct)
      → (x : E) × (lookup e (address protocol c.rpc_port k host) ≡ some x))
    (hosts : List CharStruct) (own : CharStruct) (e : Engine) where
  abbrev later_rpc : Rpc E
  later_rpc = record {
    is_server = c.is_server;
    my_server_index = c.my_server;
    threads = c.rpc_threads;
    uris = plain_uris protocol c.rpc_port 0 hosts;
    thallium_server = if c.is_server then some e else none;
    thallium_client = e;
    thallium_endpoints = endpoints lookup protocol c.rpc_port found e 0 hosts;
  }

  abbrev extended : List (ℕ × Rpc E) → Bool → Process E
  extended rpcs finalized = record {
    conf = match_list (plain_uris protocol c.rpc_port 0 hosts) c;
    rpcs = insert_or_assign c.rpc_port later_rpc rpcs;
    engine = some e;
    finalized = finalized;
  }

  reload-extended :
      (files : Files) (rpcs : List (ℕ × Rpc E)) (finalized : Bool)
      → find_rpc c.rpc_port rpcs ≡ none
      → load_uri files c.rpc_port c.server_list_path c.uri
        ≡ some (plain_uris protocol c.rpc_port 0 hosts)
      → get_elem? hosts c.my_server ≡ some own
      → reload lookup files
          (record { conf = c; rpcs = rpcs; engine = some e; finalized = finalized })
        ≡ some (extended rpcs finalized)
  unfolding reload create_rpc release
  reload-extended files rpcs finalized absent loaded mine =
      let uris = plain_uris protocol c.rpc_port 0 hosts in
      rw
        (
          loaded,
          match_list-is_server uris c,
          match_list-my_server uris c,
          match_list-rpc_threads uris c,
          new_rpc-later lookup protocol c.rpc_port found c.is_server c.my_server c.rpc_threads hosts
              own e mine,
          absent,
        )
        refl

ne→== : (a b : ℕ) → a ≢ b → (a == b) ≡ false
ne→== a b h = ground arith

configure_internal-new_port :
    {E : Type 0} (lookup : Engine → List ℕ → Option E) (files : Files) (s : Settings)
    (process : Process E)
    → (apply_settings s process.conf).rpc_port ≢ process.conf.rpc_port
    → configure_internal lookup files false s process ≡ (
        reload lookup files (record process { conf = apply_settings s process.conf })
        >>= λ process'. some (returned process'))
unfolding configure_internal
configure_internal-new_port lookup files s process new_port =
    let other =
      ne→== process.conf.rpc_port (apply_settings s process.conf).rpc_port
        (λ p. new_port (sym p)) in
    rw other (elim (Bool-cases (names_servers s)) [
      | inl named ↦ rw named refl
      | inr plain ↦ rw plain refl
    ])

-- A process that has an engine is configured again, for a port other than the one in its settings
-- and that it has no RPC object for, on a server list: a file with a line for each entry, its nodes
-- short enough, its own number on the list, and the address `protocol://` as its URI; thallium
-- finds an endpoint at each address of this form. Then ReConfigure returns, and GetRPC gives an RPC
-- object for the new port, which sends a call for server `j` on the list to the endpoint at the
-- address with the new port; but the process, if it is a server, goes on listening where its first
-- engine does and starts no engine at the new port. The RPC objects of the other ports are kept.
pub re_configure-engine :
    {E : Type 0} (lookup : Engine → List ℕ → Option E) (files : Files) (s : Settings)
    (process : Process E) (protocol : List ℕ) (es : List Entry) (own host : CharStruct) (e : Engine)
    (q j : ℕ)
    → let c = apply_settings (record s { my_server_idx = to_i16 s.my_server_idx }) process.conf in
      process.engine ≡ some e
      → c.rpc_port ≢ process.conf.rpc_port
      → get_rpc c.rpc_port process ≡ none
      → c.uri ≡ default_text protocol
      → (lacks b':' protocol ≡ true) × (no_nul protocol ≡ true)
      → files c.server_list_path.value ≡ some (print_list es)
      → AllEntries es × AllShort protocol (expand es)
      → get_elem? (expand es) c.my_server ≡ some own
      → get_elem? (expand es) j ≡ some host
      → q ≢ c.rpc_port
      → ((e : Engine) (k : ℕ) (h : CharStruct)
          → (x : E) × (lookup e (address protocol c.rpc_port k h) ≡ some x))
      → (process' : Process E) × (r : Rpc E) × (re_configure lookup files s process
          ≡ some (returned process'))
        × (get_rpc c.rpc_port process' ≡ some r)
        × (call_endpoint lookup r j ≡ lookup e (address protocol c.rpc_port j host))
        × (r.thallium_server ≡ (if c.is_server then some e else none))
        × (process'.engine ≡ some e)
        × (get_rpc q process' ≡ get_rpc q process)
unfolding re_configure get_rpc call_endpoint
re_configure-engine lookup files s process protocol es own host e q j engine new_port absent uri
      (free, clean) file (entries, short) mine there other found =
    let s' = record s { my_server_idx = to_i16 s.my_server_idx } in
    let c = apply_settings s' process.conf in
    let hosts = expand es in
    let r = later_rpc lookup protocol c found hosts own e in
    let loaded : load_uri files c.rpc_port c.server_list_path c.uri
        ≡ some (plain_uris protocol c.rpc_port 0 hosts) =
      rw uri (
        load_uri-plain_uris protocol free clean c.rpc_port files c.server_list_path es file entries
          short) in
    (
      extended lookup protocol c found hosts own e process.rpcs process.finalized,
      r,
      configure_internal-new_port lookup files s' process new_port
          ∙ rw
              (
                engine,
                reload-extended lookup protocol c found hosts own e files process.rpcs
                    process.finalized absent loaded mine,
              )
              refl,
      find_rpc-insert_or_assign c.rpc_port c.rpc_port r process.rpcs ∙ rw (==_refl c.rpc_port) refl,
      get_elem?-endpoints lookup protocol c.rpc_port found e j 0 hosts host there
          ∙ ap (λ n. lookup e (address protocol c.rpc_port n host)) (omega arith),
      refl,
      refl,
      find_rpc-insert_or_assign q c.rpc_port r process.rpcs ∙ rw (ne→== q c.rpc_port other) refl,
    )
