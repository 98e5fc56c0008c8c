-- ===== src/Peering.antt =====
-- The services of other nodes: src/services/remote_service.rs, the remote services of
-- src/services/service_registry.rs, and what src/node.rs does with the capabilities that a peer
-- announces. `Known` is the part of the node. Whether there is a transport is an argument. A handler
-- that forwards to a peer is the service and the action that it was made for. Log lines are left
-- out, and an operation runs with no other in between.
pub mod Known
pub mod Laws
pub mod Announced
pub mod Routed
pub mod Renamed
mod Tests
use rust_node.Base.{
  String, Bool, true, false, List, [], ◌∷◌, ◌++◌, map, Option, none, some, Result, ok, err,
}
use rust_node.Base.Assoc.{insert}
use rust_node.Base.Calls.{Call}
use rust_node.Network.{PeerId}
use rust_node.Topic
use rust_node.Topic.{TopicPath, TopicError, DefaultHasher, new_action_topic}
use rust_node.Trie.Search.{PathTrieMatch, find, find_matches}
use rust_node.Trie.{PathTrie, new_trie, set_value, remove_values}
use rust_node.Registry.{
  Vocabulary, ServiceRegistry, register_remote_action_handler, remove_remote_action_handler,
}

-- `ServiceMetadata` and `ActionMetadata` of runar_common.
pub record Metadata : Type 1 where
  pub ServiceMetadata : Type 0
  pub ActionMetadata : Type 0
  pub name : ServiceMetadata → String
  pub service_path : ServiceMetadata → String
  pub network_id : ServiceMetadata → String
  pub version : ServiceMetadata → String
  pub description : ServiceMetadata → String
  pub actions : ServiceMetadata → List ActionMetadata
  pub action_name : ActionMetadata → String

pub record RemoteService (m : Metadata) : Type 0 where
  pub name : String
  pub service_topic : TopicPath
  pub version : String
  pub description : String
  pub peer_id : PeerId
  pub actions : List (String × m.ActionMetadata)

-- A handler of a local service, or one that forwards to a peer.
pub data Handler (m : Metadata) (Local : Type 0) : Type 0 where
  handles : Local → Handler m Local
  forwards : RemoteService m → String → Handler m Local

abbrev pub with_forwards : Metadata → Vocabulary → Vocabulary
with_forwards m v = record v { ActionHandler = Handler m v.ActionHandler }

-- The registry with its remote services.
pub record Services (m : Metadata) (v : Vocabulary) : Type 0 where
  pub registry : ServiceRegistry (with_forwards m v)
  pub remote_services : PathTrie (RemoteService m)

pub data PeeringError : Type 0 where
  no_transport service_exists service_not_found : PeeringError
  bad_topic : TopicError → PeeringError

-- A later action of the same name takes the place of an earlier one.
abbrev pub add_actions :
    (m : Metadata)
    → List m.ActionMetadata
    → List (String × m.ActionMetadata)
    → List (String × m.ActionMetadata)
add_actions m [] actions = actions
add_actions m (a ∷ rest) actions = add_actions m rest (insert (m.action_name a) a actions)

-- The service of the metadata, under its name.
abbrev pub remote_service :
    (m : Metadata) → PeerId → m.ServiceMetadata → TopicPath → RemoteService m
remote_service m peer_id metadata topic = record {
  name = m.name metadata;
  service_topic = topic;
  version = m.version metadata;
  description = m.description metadata;
  peer_id = peer_id;
  actions = add_actions m (m.actions metadata) [];
}

-- A service whose name is no path is left out.
abbrev pub push_service :
    (m : Metadata)
    → PeerId
    → m.ServiceMetadata
    → Result TopicPath TopicError
    → List (RemoteService m)
    → List (RemoteService m)
push_service m peer_id metadata (err e) services = services
push_service m peer_id metadata (ok topic) services =
    remote_service m peer_id metadata topic ∷ services

abbrev pub create_services :
    ⦃hasher : DefaultHasher⦄
    → (m : Metadata) → PeerId
    → List m.ServiceMetadata
    → List (RemoteService m)
create_services m peer_id [] = []
create_services m peer_id (metadata ∷ rest) =
    push_service m peer_id metadata (Topic.new (m.name metadata) (m.network_id metadata))
      (create_services m peer_id rest)

unfoldable pub create_from_capabilities :
    ⦃hasher : DefaultHasher⦄
    → (m : Metadata) → PeerId
    → List m.ServiceMetadata
    → Bool
    → Result (List (RemoteService m)) PeeringError
create_from_capabilities m peer_id capabilities false = err no_transport
create_from_capabilities m peer_id capabilities true = ok (create_services m peer_id capabilities)

module _ {m : Metadata} {v : Vocabulary} where
  -- Only one service for a path, also where an old one only covers it.
  abbrev pub register_found :
      RemoteService m
      → List (PathTrieMatch (RemoteService m))
      → Call (Services m v) PeeringError (Unit {0})
  register_found service [] s = (
    ok tt,
    record s { remote_services = set_value service.service_topic service s.remote_services },
  )
  register_found service (found ∷ others) s = (err service_exists, s)

  unfoldable pub register_remote_service :
      RemoteService m → Call (Services m v) PeeringError (Unit {0})
  register_remote_service service s =
      register_found service (find_matches service.service_topic s.remote_services) s

  -- An action whose topic cannot be made is skipped.
  abbrev pub register_action :
      RemoteService m → String → Result TopicPath TopicError → Services m v → Services m v
  register_action service action (err e) s = s
  register_action service action (ok topic) s = record s {
    registry = register_remote_action_handler topic (forwards service action) s.registry;
  }

  abbrev pub remove_action : Result TopicPath TopicError → Services m v → Services m v
  remove_action (err e) s = s
  remove_action (ok topic) s = record s { registry = remove_remote_action_handler topic s.registry }

module _ ⦃hasher : DefaultHasher⦄ {m : Metadata} {v : Vocabulary} where
  -- The loops of `init` and `stop` over the names of the actions.
  unfoldable pub init_actions :
      RemoteService m → List (String × m.ActionMetadata) → Services m v → Services m v
  init_actions service [] s = s
  init_actions service ((action, metadata) ∷ rest) s =
      init_actions service rest
        (register_action service action (new_action_topic service.service_topic action) s)

  unfoldable pub init : RemoteService m → Services m v → Services m v
  init service s = init_actions service service.actions s

  unfoldable pub stop_actions :
      RemoteService m → List (String × m.ActionMetadata) → Services m v → Services m v
  stop_actions service [] s = s
  stop_actions service ((action, metadata) ∷ rest) s =
      stop_actions service rest (remove_action (new_action_topic service.service_topic action) s)

  unfoldable pub stop : RemoteService m → Services m v → Services m v
  stop service s = stop_actions service service.actions s

  abbrev pub stop_all : List (RemoteService m) → Services m v → Services m v
  stop_all [] s = s
  stop_all (service ∷ rest) s = stop_all rest (stop service s)

  -- With the services that were found under the topic.
  abbrev pub remove_found :
      TopicPath → List (RemoteService m) → Call (Services m v) PeeringError (Unit {0})
  remove_found topic [] s = (err service_not_found, s)
  remove_found topic (service ∷ rest) s =
      let stopped = stop_all (service ∷ rest) s in
      (ok tt, record stopped { remote_services = remove_values topic stopped.remote_services })

  unfoldable pub remove_remote_service : TopicPath → Call (Services m v) PeeringError (Unit {0})
  remove_remote_service topic s = remove_found topic (find topic s.remote_services) s
