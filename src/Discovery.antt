-- ===== src/Discovery.antt =====
-- src/network/discovery/memory_discovery.rs: the nodes that a discovery knows, and the listeners that
-- it calls. The task that announces is the node that it announces, and a round of it is an operation
-- of its own. tokio lets a task run on whose handle is dropped, and its ticker gives the first tick at
-- once, so rounds may come right after the start.
pub mod Laws
mod Tests
use rust_node.Base.{
  String, Bool, true, false, List, [], ◌∷◌, ◌++◌, map, Option, none, some, Result, ok, err,
}
use rust_node.Base.Assoc.{insert, remove}
use rust_node.Base.Calls.{Call, ◌>>=◌, ◌>>◌, after, lift, modify, return}
use rust_node.Network.{NodeInfo, PeerInfo}

-- A listener is a parameter; `calls` are the calls of listeners so far. `detached` are the tasks that
-- run without a handle.
pub record MemoryDiscovery (ServiceMetadata Listener Options : Type 0) : Type 0 where
  pub nodes : List (String × NodeInfo ServiceMetadata)
  pub local_node : Option (NodeInfo ServiceMetadata)
  pub options : Option Options
  pub cleanup_task : Bool
  pub announce_task : Option (NodeInfo ServiceMetadata)
  pub detached : List (NodeInfo ServiceMetadata)
  pub listeners : List Listener
  pub calls : List (Listener × PeerInfo)

pub data DiscoveryError : Type 0 where
  no_local_node not_initialized : DiscoveryError

abbrev pub some_or {ℓ} : {A : Type ℓ} → DiscoveryError → Option A → Result A DiscoveryError
some_or failure none = err failure
some_or failure (some a) = ok a

abbrev pub peer_info_of : {M : Type 0} → NodeInfo M → PeerInfo
peer_info_of info = record { public_key = info.peer_id.public_key; addresses = info.addresses }

-- The tasks that run, with that of the handle.
abbrev pub with_handle : {M : Type 0} → Option (NodeInfo M) → List (NodeInfo M) → List (NodeInfo M)
with_handle none tasks = tasks
with_handle (some info) tasks = info ∷ tasks

module _ {M Listener Options : Type 0} where
  unfoldable pub new : MemoryDiscovery M Listener Options
  new = record {
    nodes = [];
    local_node = none;
    options = none;
    cleanup_task = false;
    announce_task = none;
    detached = [];
    listeners = [];
    calls = [];
  }

  unfoldable pub set_local_node :
      NodeInfo M → MemoryDiscovery M Listener Options → MemoryDiscovery M Listener Options
  set_local_node info d = record d { local_node = some info }

  -- Each listener is called.
  abbrev pub call_listeners :
      NodeInfo M → MemoryDiscovery M Listener Options → MemoryDiscovery M Listener Options
  call_listeners info d = record d {
    calls = d.calls ++ map (λ listener. (listener, peer_info_of info)) d.listeners;
  }

  -- The node is filed under its id, and each listener is called.
  unfoldable pub add_node_internal :
      NodeInfo M → MemoryDiscovery M Listener Options → MemoryDiscovery M Listener Options
  add_node_internal info d =
      call_listeners info (record d { nodes = insert info.peer_id.public_key info d.nodes })

  -- The handle of the new task takes the place of an older one, whose task runs on.
  unfoldable pub start_announce_task :
      NodeInfo M → MemoryDiscovery M Listener Options → MemoryDiscovery M Listener Options
  start_announce_task info d = record d {
    announce_task = some info;
    detached = with_handle d.announce_task d.detached;
  }

  abbrev pub call_each :
      List (NodeInfo M) → MemoryDiscovery M Listener Options → MemoryDiscovery M Listener Options
  call_each [] d = d
  call_each (info ∷ rest) d = call_each rest (call_listeners info d)

  -- A round of each task that runs.
  unfoldable pub announce_round :
      MemoryDiscovery M Listener Options → MemoryDiscovery M Listener Options
  announce_round d = call_each (with_handle d.announce_task d.detached) d

  unfoldable pub init :
      Options → MemoryDiscovery M Listener Options → MemoryDiscovery M Listener Options
  init options d = record d { options = some options; cleanup_task = true }

  unfoldable pub start_announcing :
      Call (MemoryDiscovery M Listener Options) DiscoveryError (Unit {0})
  start_announcing d =
      (lift (some_or no_local_node d.local_node) >>= λ info.
      lift (some_or not_initialized d.options) >>= λ options.
      modify (add_node_internal info) >> modify (start_announce_task info))
        d

  abbrev pub without_local :
      Option (NodeInfo M) → MemoryDiscovery M Listener Options → MemoryDiscovery M Listener Options
  without_local none d = d
  without_local (some info) d = record d { nodes = remove info.peer_id.public_key d.nodes }

  unfoldable pub stop_announcing :
      MemoryDiscovery M Listener Options → MemoryDiscovery M Listener Options
  stop_announcing d = without_local d.local_node (record d { announce_task = none })

  unfoldable pub set_discovery_listener :
      Listener → MemoryDiscovery M Listener Options → MemoryDiscovery M Listener Options
  set_discovery_listener listener d = record d { listeners = d.listeners ++ listener ∷ [] }

  unfoldable pub shutdown : MemoryDiscovery M Listener Options → MemoryDiscovery M Listener Options
  shutdown d = record d { cleanup_task = false; announce_task = none; nodes = [] }
