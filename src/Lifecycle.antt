-- ===== src/Lifecycle.antt =====
-- src/node.rs: the services of a node, from `add_service` to `start` and `stop`, with
-- `register_local_service` of src/services/service_registry.rs. What a service does when it is called,
-- also with the registry, is a parameter, and so is the outcome of the set-up of networking.
pub mod Laws
mod Tests
use rust_node.Base.{
  String, Bool, true, false, List, [], ◌∷◌, Option, none, some, Result, ok, err, ◌+◌, ◌%◌,
  if◌then◌else◌,
}
use rust_node.Topic
use rust_node.Topic.{TopicPath, TopicError, DefaultHasher}
use rust_node.Topic.Identity.{topic_eq}
use rust_node.Trie.{PathTrie, set_value}
use rust_node.Registry.{Vocabulary, ServiceRegistry, update_service_state}
use rust_node.Events.{EventNode, node_changed}

-- `AbstractService`, and the four states of `ServiceState` that the node sets.
pub record Services (v : Vocabulary) : Type 1 where
  pub Service : Type 0
  pub path : Service → String
  pub network_id : Service → Option String
  pub initialized : v.ServiceState
  pub running : v.ServiceState
  pub stopped : v.ServiceState
  pub error : v.ServiceState
  pub init : Service → TopicPath → ServiceRegistry v → Result (Unit {0}) String × ServiceRegistry v
  pub start : Service → TopicPath → ServiceRegistry v → Result (Unit {0}) String × ServiceRegistry v
  pub stop : Service → TopicPath → ServiceRegistry v → Result (Unit {0}) String × ServiceRegistry v

pub record LifecycleNode {v : Vocabulary} (x : Services v) : Type 0 where
  pub node : EventNode v
  pub local_services : PathTrie x.Service
  pub local_services_list : List (TopicPath × x.Service)
  pub supports_networking : Bool

pub data LifecycleError : Type 0 where
  bad_service_topic : TopicError → LifecycleError
  init_failed networking_failed : String → LifecycleError

abbrev pub or_default : Option String → String → String
or_default none default = default
or_default (some network_id) default = network_id

module _ {v : Vocabulary} (x : Services v) where
  -- The insert of a `HashMap`: an equal key stays.
  unfoldable pub insert_service :
      TopicPath → x.Service → List (TopicPath × x.Service) → List (TopicPath × x.Service)
  insert_service topic service [] = (topic, service) ∷ []
  insert_service topic service ((known, old) ∷ rest) =
      let later = insert_service topic service rest in
      if topic_eq known topic then (known, service) ∷ rest else (known, old) ∷ later

  abbrev pub on_registry :
      (ServiceRegistry v → ServiceRegistry v) → LifecycleNode x → LifecycleNode x
  on_registry change s = record s {
    node = record s.node { service_registry = change s.node.service_registry };
  }

  unfoldable pub register_local_service : TopicPath → x.Service → LifecycleNode x → LifecycleNode x
  register_local_service topic service s =
      on_registry (update_service_state topic x.initialized) (record s {
        local_services = set_value topic service s.local_services;
        local_services_list = insert_service topic service s.local_services_list;
      })

  -- With what `init` of the service gives.
  abbrev pub initialised :
      TopicPath
      → x.Service
      → LifecycleNode x
      → Result (Unit {0}) String × ServiceRegistry v
      → Result (Unit {0}) LifecycleError × LifecycleNode x
  initialised topic service s (err e, r) =
      (err (init_failed e), on_registry (λ _. update_service_state topic x.error r) s)
  initialised topic service s (ok u, r) =
      let s' =
        register_local_service topic service
          (on_registry (λ _. update_service_state topic x.initialized r) s) in
      (ok tt, record s' { node = node_changed s'.node })

  abbrev pub add_under :
      x.Service
      → LifecycleNode x
      → Result TopicPath TopicError
      → Result (Unit {0}) LifecycleError × LifecycleNode x
  add_under service s (err e) = (err (bad_service_topic e), s)
  add_under service s (ok topic) =
      initialised topic service s (x.init service topic s.node.service_registry)

  unfoldable pub add_service :
      ⦃hasher : DefaultHasher⦄
      → x.Service
      → LifecycleNode x
      → Result (Unit {0}) LifecycleError × LifecycleNode x
  add_service service s =
      add_under service s
        (Topic.new (x.path service) (or_default (x.network_id service) s.node.network_id))

  abbrev pub state_of : Result (Unit {0}) String → v.ServiceState
  state_of (err e) = x.error
  state_of (ok u) = x.running

  unfoldable pub start_services :
      List (TopicPath × x.Service) → ServiceRegistry v → ServiceRegistry v
  start_services [] r = r
  start_services ((topic, service) ∷ rest) r =
      let (outcome, r') = x.start service topic r in
      start_services rest (update_service_state topic (state_of outcome) r')

  -- After the services: the networking, where the node supports it, and the flag.
  abbrev pub started :
      Result (Unit {0}) String
      → LifecycleNode x
      → Result (Unit {0}) LifecycleError × LifecycleNode x
  started (err e) s = (err (networking_failed e), s)
  started (ok u) s = (
    ok tt,
    record s {
      node = record s.node {
        running = true;
        registry_version = (s.node.registry_version + 1) % 18446744073709551616;
      };
    },
  )

  -- With the outcome of `start_networking`.
  unfoldable pub start :
      Result (Unit {0}) String
      → LifecycleNode x
      → Result (Unit {0}) LifecycleError × LifecycleNode x
  start networking s =
      if s.node.running
      then (ok tt, s)
      else started (if s.supports_networking then networking else ok tt)
          (on_registry (start_services s.local_services_list) s)

  -- A service that fails to stop keeps its state.
  abbrev pub stopped_service :
      TopicPath → Result (Unit {0}) String × ServiceRegistry v → ServiceRegistry v
  stopped_service topic (err e, r) = r
  stopped_service topic (ok u, r) = update_service_state topic x.stopped r

  unfoldable pub stop_services :
      List (TopicPath × x.Service) → ServiceRegistry v → ServiceRegistry v
  stop_services [] r = r
  stop_services ((topic, service) ∷ rest) r =
      stop_services rest (stopped_service topic (x.stop service topic r))

  -- An error of the networking is only logged.
  unfoldable pub stop : LifecycleNode x → Result (Unit {0}) LifecycleError × LifecycleNode x
  stop s =
      if s.node.running
      then (
        ok tt,
        on_registry (stop_services s.local_services_list)
            (record s { node = record s.node { running = false } }),
      )
      else (ok tt, s)
