-- ===== src/Registry.antt =====
-- src/services/service_registry.rs: `ServiceRegistry`, its action handlers, its event subscriptions
-- and the states of services. Handlers, callbacks and metadata come from other crates: they are
-- types, and `path` of an `EventMetadata` is a function. A lock guards each field, and an operation
-- takes the locks one after the other; here an operation runs with no other in between. The id that
-- `Uuid::new_v4` gives is an argument. Log lines are left out.
pub mod Routes
pub mod Subscriptions
pub mod LocalEvents
mod Tests
use rust_node.Base.{
  concat, String, str_eq, Bool, true, List, [], ◌∷◌, ◌++◌, map, Option, none, some, if◌then◌else◌,
}
use rust_node.Base.Assoc.{lookup, insert}
use rust_node.Topic.{TopicPath}
use rust_node.Trie.Search.{PathTrieMatch, find_matches}
use rust_node.Trie.{PathTrie, new_trie, set_value, remove_values}

-- The types that the registry keeps and does not look into.
pub record Vocabulary : Type 1 where
  pub ActionHandler : Type 0
  pub ActionMetadata : Type 0
  pub EventCallback : Type 0
  pub EventMetadata : Type 0
  pub event_path : EventMetadata → String
  pub ServiceState : Type 0

pub record ServiceRegistry (v : Vocabulary) : Type 0 where
  pub local_action_handlers : PathTrie (v.ActionHandler × TopicPath × Option v.ActionMetadata)
  pub local_events_by_service : PathTrie (List v.EventMetadata)
  pub remote_action_handlers : PathTrie (List v.ActionHandler)
  pub local_event_subscriptions :
      PathTrie (List (String × v.EventCallback × Option v.EventMetadata))
  pub remote_event_subscriptions : PathTrie (List (String × v.EventCallback))
  pub subscription_id_to_topic_path : List (String × TopicPath)
  pub subscription_id_to_service_topic_path : List (String × TopicPath)
  pub service_states_by_service_path : List (String × v.ServiceState)

-- `matches.into_iter().flat_map(|m| m.content)`
abbrev pub flatten {ℓ} : {A : Type ℓ} → List (PathTrieMatch (List A)) → List A
flatten ms = concat (map (λ m. m.content) ms)

-- The list that is stored: the first match's entries and the new one.
abbrev pub with_new {ℓ} : {A : Type ℓ} → List (PathTrieMatch (List A)) → A → List A
with_new [] x = x ∷ []
with_new (m ∷ ms) x = m.content ++ x ∷ []

-- The first match's handler and the path that it was registered under.
abbrev pub first_local {ℓ κ μ} :
    {A : Type ℓ} {B : Type κ} {C : Type μ} → List (PathTrieMatch (A × B × C)) → Option (A × B)
first_local [] = none
first_local (m ∷ ms) = some (m.content.0, m.content.1)

abbrev pub first {ℓ} : {A : Type ℓ} → List A → Option A
first [] = none
first (x ∷ xs) = some x

abbrev pub or_remote {ℓ κ} : {A : Type ℓ} {B : Type κ} → Option (A × B) → List A → Option A
or_remote (some (handler, topic)) handlers = some handler
or_remote none handlers = first handlers

abbrev pub push_some {ℓ} : {A : Type ℓ} → Option A → List A → List A
push_some none xs = xs
push_some (some x) xs = x ∷ xs

abbrev pub third_parts {ℓ κ μ} :
    {A : Type ℓ} {B : Type κ} {C : Type μ} → List (PathTrieMatch (A × B × Option C)) → List C
third_parts [] = []
third_parts (m ∷ ms) = push_some m.content.2 (third_parts ms)

module _ {v : Vocabulary} where
  abbrev pub new : ServiceRegistry v
  new = record {
    local_action_handlers = new_trie;
    local_events_by_service = new_trie;
    remote_action_handlers = new_trie;
    local_event_subscriptions = new_trie;
    remote_event_subscriptions = new_trie;
    subscription_id_to_topic_path = [];
    subscription_id_to_service_topic_path = [];
    service_states_by_service_path = [];
  }

  unfoldable pub register_local_action_handler :
      TopicPath → v.ActionHandler → Option v.ActionMetadata → ServiceRegistry v → ServiceRegistry v
  register_local_action_handler topic handler metadata r = record r {
    local_action_handlers = set_value topic (handler, topic, metadata) r.local_action_handlers;
  }

  unfoldable pub remove_remote_action_handler : TopicPath → ServiceRegistry v → ServiceRegistry v
  remove_remote_action_handler topic r = record r {
    remote_action_handlers = remove_values topic r.remote_action_handlers;
  }

  unfoldable pub register_remote_action_handler :
      TopicPath → v.ActionHandler → ServiceRegistry v → ServiceRegistry v
  register_remote_action_handler topic handler r = record r {
    remote_action_handlers =
        set_value topic (with_new (find_matches topic r.remote_action_handlers) handler)
          r.remote_action_handlers;
  }

  unfoldable pub get_local_action_handler :
      TopicPath → ServiceRegistry v → Option (v.ActionHandler × TopicPath)
  get_local_action_handler topic r = first_local (find_matches topic r.local_action_handlers)

  unfoldable pub get_remote_action_handlers : TopicPath → ServiceRegistry v → List v.ActionHandler
  get_remote_action_handlers topic r = flatten (find_matches topic r.remote_action_handlers)

  unfoldable pub get_action_handler : TopicPath → ServiceRegistry v → Option v.ActionHandler
  get_action_handler topic r =
      or_remote (get_local_action_handler topic r) (get_remote_action_handlers topic r)

  unfoldable pub update_service_state :
      TopicPath → v.ServiceState → ServiceRegistry v → ServiceRegistry v
  update_service_state topic state r = record r {
    service_states_by_service_path = insert topic.path state r.service_states_by_service_path;
  }

  unfoldable pub get_service_state : TopicPath → ServiceRegistry v → Option v.ServiceState
  get_service_state topic r = lookup topic.path r.service_states_by_service_path

  unfoldable pub get_events_metadata : TopicPath → ServiceRegistry v → List v.EventMetadata
  get_events_metadata topic r = flatten (find_matches topic r.local_events_by_service)

  unfoldable pub get_actions_metadata : TopicPath → ServiceRegistry v → List v.ActionMetadata
  get_actions_metadata topic r = third_parts (find_matches topic r.local_action_handlers)
