-- ===== src/Container.antt =====
-- include/hcl/common/container.h, src/hcl/common/container.cpp and include/hcl/common/macros.h: the
-- base class of the containers, and how a call finds the server that it is for. Each server keeps
-- one shared-memory segment, and the segments of all servers are a list; a process on the node of
-- its server works on that server's segment in place, any other call is a remote procedure call.
-- Calls has the proof that both do the same.
pub mod Calls
pub mod Routed
pub mod Series
pub mod Gather
pub mod Addressed
pub mod Placed
pub mod Files
pub mod Names
use hcl.Base.{
  zero, ◌++◌, ◌+◌, suc, [], ℕ, ◌≡◌, ◌<◌, refl, Bool, ◌&&◌, List, Option, some, none, length,
  get_elem?, set, u16, mod?, ◌==◌, if◌then◌else◌, ◌>>=◌,
}

-- the fields of the class container that decide where a call runs
pub record Container : Type 0 where
  pub num_servers : ℕ
  pub my_server_idx : ℕ
  pub is_server : Bool
  pub server_on_node : Bool

-- is_local(key_int) and is_local()
pub is_local_key : Container → ℕ → Bool
is_local_key c key_int = (key_int == c.my_server_idx) && c.server_on_node

pub is_local : Container → Bool
is_local c = c.server_on_node

-- `static_cast<uint16_t>(key_hash % num_servers)`; none: num_servers is 0
unfoldable pub key_server : Container → ℕ → Option ℕ
key_server c key_hash = mod? key_hash c.num_servers >>= λ i. some (u16 i)

module _ {S Req Res : Type 0} where
  -- a method at work on the segment of server `i`; none: it does not return
  pub run_at : (Req → S → Option (Res × S)) → List S → ℕ → Req → Option (Res × List S)
  run_at handler servers i req = do
    s ← get_elem? servers i
    (res, s') ← handler req s
    some (res, set servers i s')

  -- Thallium, as the macros RPC_CALL_WRAPPER use it: a call at an endpoint that is there runs the
  -- function that the server has bound, with its arguments, and hands back what it returns.
  pub record Rpc (bound : Req → S → Option (Res × S)) : Type 0 where
    pub deliver : List S → ℕ → Req → Option (Res × List S)
    pub deliver-run_at :
        (servers : List S) (i : ℕ) (req : Req)
        → i < length servers
        → deliver servers i req ≡ run_at bound servers i req

  -- the two branches of each method that takes a server: local call or RPC_CALL_WRAPPER
  pub call :
      Container
      → (method : Req → S → Option (Res × S)) → {bound : Req → S → Option (Res × S)} → Rpc bound
      → List S
      → ℕ
      → Req
      → Option (Res × List S)
  unfolding is_local_key run_at
  call c method rpc servers key_int req =
      if is_local_key c key_int
      then run_at method servers c.my_server_idx req
      else rpc.deliver servers key_int req

  -- a transport that meets the description
  abbrev pub direct : (bound : Req → S → Option (Res × S)) → Rpc bound
  direct bound = record { deliver = run_at bound; deliver-run_at = λ servers i req h. refl }

  -- the methods that choose the server by the hash of the key
  unfoldable pub routed :
      Container
      → (method : Req → S → Option (Res × S)) → Rpc method
      → List S
      → ℕ
      → Req
      → Option (Res × List S)
  unfolding call
  routed c method rpc servers key_hash req =
      key_server c key_hash >>= λ key_int. call c method rpc servers key_int req

-- one network for all the functions that the servers bind
pub record Network (S : Type 0) : Type 1 where
  pub rpc : {Req Res : Type 0} (bound : Req → S → Option (Res × S)) → Rpc bound

-- a network that meets the description
abbrev pub direct_network : (S : Type 0) → Network S
direct_network S = record { rpc = direct }

module _ {S Req Res : Type 0} where
  -- a call on the own server, or a remote one: ContainsInServer, GetAllDataInServer and GetNextSequence
  pub in_server :
      Container
      → (method : Req → S → Option (Res × S)) → Rpc method
      → List S
      → Req
      → Option (Res × List S)
  unfolding run_at
  in_server c method rpc servers req =
      if is_local c
      then run_at method servers c.my_server_idx req
      else rpc.deliver servers c.my_server_idx req

module _ {S Req E : Type 0} where
  -- the loop over the other servers, `n` of them from number `i` on
  pub other_servers :
      ℕ
      → ℕ
      → Container
      → (method : Req → S → Option (List E × S)) → Rpc method
      → List S
      → Req
      → List E
      → Option (List E × List S)
  other_servers zero i c method rpc servers req final_values = some (final_values, servers)
  other_servers (suc n) i c method rpc servers req final_values =
      if i == c.my_server_idx
      then other_servers n (i + 1) c method rpc servers req final_values
      else (rpc.deliver servers i req >>= λ (server, servers').
          other_servers n (i + 1) c method rpc servers' req (final_values ++ server))

  -- Contains and GetAllData
  pub gather :
      Container
      → (method : Req → S → Option (List E × S)) → Rpc method
      → List S
      → Req
      → Option (List E × List S)
  unfolding in_server other_servers
  gather c method rpc servers req = do
    (current_server, servers') ← in_server c method rpc servers req
    other_servers c.num_servers 0 c method rpc servers' req ([] ++ current_server)
