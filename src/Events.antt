-- ===== src/Events.antt =====
-- src/node.rs: events, from a subscription to the callbacks that run. The metadata of an event with
-- the path given is a parameter; what callbacks give is only logged. A call of a callback is a value.
pub mod Laws
pub mod Subscribed
mod Tests
use rust_node.Base.{
  ℕ, String, str_eq, Bool, true, false, not, List, [], ◌∷◌, ◌++◌, map, Option, none, some, Result,
  ok, err, ◌+◌, ◌%◌, if◌then◌else◌,
}
use rust_node.Base.Calls.{Call, ◌>>=◌, ◌>>◌, after, lift, modify, return, fail}
use rust_node.Network.{NetworkMessage, NetworkMessagePayloadItem}
use rust_node.Topic
use rust_node.Topic.{TopicPath, TopicError, DefaultHasher}
use rust_node.Registry.{Vocabulary, ServiceRegistry}
use rust_node.Registry.Subscriptions.{RegistryError, get_local_event_subscribers}
use rust_node.Registry.LocalEvents.{register_local_event_subscription, unsubscribe_local}
use rust_node.Messages.{Values, non_null}

-- `registry_version` is the bits of an `AtomicI64`, and `notify_waits` tells whether
-- `debounce_notify_task` holds a task.
pub record EventNode (v : Vocabulary) : Type 0 where
  pub network_id : String
  pub service_registry : ServiceRegistry v
  pub running : Bool
  pub registry_version : ℕ
  pub notify_waits : Bool

pub data EventError : Type 0 where
  invalid_topic : TopicError → EventError
  refused : RegistryError → EventError
  id_required : EventError

-- A call of a callback: the topic of its context, and its data.
pub record Delivery {v : Vocabulary} (x : Values v) : Type 0 where
  pub callback : v.EventCallback
  pub topic : TopicPath
  pub payload : Option x.Value

abbrev pub or_invalid : Result TopicPath TopicError → Result TopicPath EventError
or_invalid (err e) = err (invalid_topic e)
or_invalid (ok topic) = ok topic

module _ {v : Vocabulary} where
  abbrev pub kept_with :
      {A : Type 0}
      → EventNode v
      → ServiceRegistry v × Result A RegistryError
      → Result A EventError × EventNode v
  kept_with s (r, err e) = (err (refused e), record s { service_registry = r })
  kept_with s (r, ok a) = (ok a, record s { service_registry = r })

  abbrev pub on_registry :
      {A : Type 0}
      → (ServiceRegistry v → ServiceRegistry v × Result A RegistryError)
      → Call (EventNode v) EventError A
  on_registry call s = kept_with s (call s.service_registry)

  -- The waiting task is replaced.
  abbrev pub notify_node_change : EventNode v → EventNode v
  notify_node_change s = record s { notify_waits = true }

  -- What follows a change of the subscriptions.
  unfoldable pub node_changed : EventNode v → EventNode v
  node_changed s =
      if s.running
      then notify_node_change
          (record s { registry_version = (s.registry_version + 1) % 18446744073709551616 })
      else s

  -- With the id that the registry generates.
  unfoldable pub subscribe :
      ⦃hasher : DefaultHasher⦄
      → (String → v.EventMetadata)
      → String
      → String
      → v.EventCallback
      → Call (EventNode v) EventError String
  subscribe metadata id path callback s =
      (lift (or_invalid (Topic.new path s.network_id)) >>= λ topic.
      on_registry (register_local_event_subscription id topic callback (some (metadata topic.path)))
      >>= λ subscription. modify node_changed >> return subscription)
        s

  unfoldable pub unsubscribe : Option String → Call (EventNode v) EventError (Unit {0})
  unsubscribe none = fail id_required
  unsubscribe (some id) = on_registry (unsubscribe_local id) >> modify node_changed

module _ ⦃hasher : DefaultHasher⦄ {v : Vocabulary} (x : Values v) where
  -- The subscribers of the topic are called one after the other.
  unfoldable pub notify_subscribers :
      TopicPath → Option x.Value → ServiceRegistry v → List (Delivery x)
  notify_subscribers topic payload r =
      map (λ s. record { callback = s.1; topic = topic; payload = payload })
        (get_local_event_subscribers topic r)

  abbrev pub publish_to :
      EventNode v
      → Option x.Value
      → Result TopicPath TopicError
      → Result (Unit {0}) EventError × List (Delivery x)
  publish_to s payload (err e) = (err (invalid_topic e), [])
  publish_to s payload (ok topic) = (ok tt, notify_subscribers topic payload s.service_registry)

  -- The broadcast to other nodes, where the options ask for it, is a line of the log.
  unfoldable pub publish_with_options :
      String → Option x.Value → EventNode v → Result (Unit {0}) EventError × List (Delivery x)
  publish_with_options path payload s = publish_to s payload (Topic.new path s.network_id)

  -- A payload whose topic or payload cannot be read is skipped.
  abbrev pub notify_payload :
      EventNode v → Result TopicPath TopicError → Result x.Value String → List (Delivery x)
  notify_payload s (err e) read = []
  notify_payload s (ok topic) (err e) = []
  notify_payload s (ok topic) (ok value) =
      notify_subscribers topic (non_null x value) s.service_registry

  unfoldable pub handle_payload : EventNode v → NetworkMessagePayloadItem → List (Delivery x)
  handle_payload s item =
      if str_eq item.path ""
      then []
      else notify_payload s (Topic.new item.path s.network_id)
          (x.deserialize_value item.value_bytes)

  unfoldable pub handle_event_payloads :
      EventNode v → List NetworkMessagePayloadItem → List (Delivery x)
  handle_event_payloads s [] = []
  handle_event_payloads s (item ∷ rest) = handle_payload s item ++ handle_event_payloads s rest

  unfoldable pub handle_network_event : Bool → NetworkMessage → EventNode v → List (Delivery x)
  handle_network_event supports_networking message s =
      if supports_networking then handle_event_payloads s message.payloads else []
