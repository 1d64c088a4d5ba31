-- ===== src/HclInternal/Endpoints.antt =====
-- The endpoints of an RPC object that is made on a server list.
use mathlib.Core.Option.{some-injective}
use hcl.Base.{
  ℕ, zero, suc, ◌+◌, ◌≡◌, refl, ◌∙◌, ap, sym, Bool, true, false, List, [], ◌∷◌, Option, some, none,
  get_elem?, if◌then◌else◌, arith,
}
use hcl.CharStruct.{CharStruct}
use hcl.RpcLib.{Engine, get_endpoint, get_endpoints, new_rpc}
use hcl.HclInternal.Servers.{address, plain_uris, own_engine, own_server, own_uri}

module _ {E : Type 0} (lookup : Engine → List ℕ → Option E) (protocol : List ℕ) (port : ℕ)
    (found : (e : Engine) (k : ℕ) (host : CharStruct)
      → (x : E) × (lookup e (address protocol port k host) ≡ some x)) where
  pub endpoints : Engine → ℕ → List CharStruct → List E
  endpoints e k [] = []
  endpoints e k (host ∷ hosts) = (found e k host).0 ∷ endpoints e (suc k) hosts

  get_endpoints-endpoints :
      (e : Engine) (k : ℕ) (hosts : List CharStruct)
      → get_endpoints lookup e (plain_uris protocol port k hosts) ≡ some (endpoints e k hosts)
  unfolding get_endpoints get_endpoint plain_uris endpoints
  get_endpoints-endpoints e k [] = refl
  get_endpoints-endpoints e k (host ∷ hosts) =
      rw ((found e k host).1, get_endpoints-endpoints e (suc k) hosts) refl

  pub get_elem?-endpoints :
      (e : Engine) (j k : ℕ) (hosts : List CharStruct) (host : CharStruct)
      → get_elem? hosts j ≡ some host
      → get_elem? (endpoints e k hosts) j ≡ lookup e (address protocol port (k + j) host)
  unfolding endpoints
  get_elem?-endpoints e j k [] host eq = absurd (cc)
  get_elem?-endpoints e zero k (h ∷ hosts) host eq =
      sym (found e k h).1
      ∙ ap (λ x. lookup e (address protocol port k x)) (some-injective h host eq)
      ∙ ap (λ n. lookup e (address protocol port n host)) (omega arith)
  get_elem?-endpoints e (suc j) k (h ∷ hosts) host eq =
      get_elem?-endpoints e j (suc k) hosts host eq
      ∙ ap (λ n. lookup e (address protocol port n host)) (omega arith)

  pub new_rpc-endpoints :
      (is_server : Bool) (me threads : ℕ) (hosts : List CharStruct) (own : CharStruct)
      → get_elem? hosts me ≡ some own
      → new_rpc lookup is_server me threads (plain_uris protocol port 0 hosts) none
        ≡ some (
          record {
            is_server = is_server;
            my_server_index = me;
            threads = threads;
            uris = plain_uris protocol port 0 hosts;
            thallium_server = own_server protocol port is_server me own;
            thallium_client = own_engine protocol port is_server me own;
            thallium_endpoints = endpoints (own_engine protocol port is_server me own) 0 hosts;
          },
          some (own_engine protocol port is_server me own),
        )
  unfolding new_rpc
  new_rpc-endpoints true me threads hosts own e =
      rw
        (
          own_uri protocol port me hosts own e,
          get_endpoints-endpoints (own_engine protocol port true me own) 0 hosts,
        )
        refl
  new_rpc-endpoints false me threads hosts own e =
      rw
        (
          own_uri protocol port me hosts own e,
          get_endpoints-endpoints (own_engine protocol port false me own) 0 hosts,
        )
        refl

  -- a process that has an engine
  pub new_rpc-later :
      (is_server : Bool) (me threads : ℕ) (hosts : List CharStruct) (own : CharStruct) (e : Engine)
      → get_elem? hosts me ≡ some own
      → new_rpc lookup is_server me threads (plain_uris protocol port 0 hosts) (some e)
        ≡ some (
          record {
            is_server = is_server;
            my_server_index = me;
            threads = threads;
            uris = plain_uris protocol port 0 hosts;
            thallium_server = if is_server then some e else none;
            thallium_client = e;
            thallium_endpoints = endpoints e 0 hosts;
          },
          some e,
        )
  unfolding new_rpc
  new_rpc-later true me threads hosts own e mine =
      rw (own_uri protocol port me hosts own mine, get_endpoints-endpoints e 0 hosts) refl
  new_rpc-later false me threads hosts own e mine =
      rw (own_uri protocol port me hosts own mine, get_endpoints-endpoints e 0 hosts) refl
