-- ===== src/Registry/LocalEvents.antt =====
-- src/services/service_registry.rs: local event subscriptions, with the metadata that each service
-- keeps of its events.
use rust_node.Base.{
  String, str_eq, Bool, not, List, [], ◌∷◌, filter, Option, none, some, Result, ok, err,
  if◌then◌else◌,
}
use rust_node.Base.Assoc.{lookup, insert, remove}
use rust_node.Topic
use rust_node.Topic.{TopicPath, TopicError, DefaultHasher}
use rust_node.Trie.Search.{PathTrieMatch, find_matches}
use rust_node.Trie.{PathTrie}
use rust_node.Registry.{Vocabulary, ServiceRegistry}
use rust_node.Registry.Subscriptions.{
  RegistryError, unknown_id, no_subscriptions, not_found, bad_service_path, add_entry,
  replace_entries,
}

module _ {ℓ} {E : Type ℓ} where
  -- The loop that takes a path's events out of the lists found for its service.
  unfoldable pub drop_events :
      (E → Bool) → TopicPath → List (PathTrieMatch (List E)) → PathTrie (List E) → PathTrie (List E)
  drop_events is_kept service_topic [] events = events
  drop_events is_kept service_topic (m ∷ ms) events =
      drop_events is_kept service_topic ms
        (replace_entries service_topic (filter is_kept m.content) events).0

  unfoldable pub add_metadata : TopicPath → Option E → PathTrie (List E) → PathTrie (List E)
  add_metadata service_topic none events = events
  add_metadata service_topic (some metadata) events = add_entry service_topic metadata events

module _ {v : Vocabulary} where
  -- The part after the service's path is known.
  unfoldable pub record_service :
      String
      → Option v.EventMetadata
      → ServiceRegistry v
      → Result TopicPath TopicError
      → ServiceRegistry v × Result String RegistryError
  record_service id metadata r (err e) = (r, err (bad_service_path e))
  record_service id metadata r (ok service_topic) = (
    record r {
      local_events_by_service = add_metadata service_topic metadata r.local_events_by_service;
      subscription_id_to_service_topic_path =
          insert id service_topic r.subscription_id_to_service_topic_path;
    },
    ok id,
  )

  unfoldable pub register_local_event_subscription :
      ⦃hasher : DefaultHasher⦄
      → String
      → TopicPath
      → v.EventCallback
      → Option v.EventMetadata
      → ServiceRegistry v
      → ServiceRegistry v × Result String RegistryError
  register_local_event_subscription id topic callback metadata r =
      record_service id metadata
        (record r {
          local_event_subscriptions =
              add_entry topic (id, callback, metadata) r.local_event_subscriptions;
          subscription_id_to_topic_path = insert id topic r.subscription_id_to_topic_path;
        })
        (Topic.new topic.service_path topic.network_id)

  -- The part after the subscription is gone: the service's events.
  unfoldable pub forget_events :
      TopicPath → Option TopicPath → ServiceRegistry v → ServiceRegistry v
  forget_events topic none r = r
  forget_events topic (some service_topic) r = record r {
    local_events_by_service =
        drop_events (λ e. not (str_eq (v.event_path e) topic.path)) service_topic
          (find_matches service_topic r.local_events_by_service) r.local_events_by_service;
  }

  -- What `unsubscribe_local` does where the topic of the id is known.
  unfoldable pub unsubscribe_local_from :
      String
      → TopicPath
      → List (PathTrieMatch (List (String × v.EventCallback × Option v.EventMetadata)))
      → ServiceRegistry v
      → ServiceRegistry v × Result (Unit {0}) RegistryError
  unsubscribe_local_from id topic [] r = (r, err (no_subscriptions id))
  unsubscribe_local_from id topic (m ∷ ms) r =
      let (t, removed) =
        replace_entries topic (filter (λ s. not (str_eq s.0 id)) m.content)
          r.local_event_subscriptions in
      let r' = record r { local_event_subscriptions = t } in
      if removed
      then (
        forget_events topic (lookup id r.subscription_id_to_service_topic_path) (record r' {
          subscription_id_to_topic_path = remove id r.subscription_id_to_topic_path;
        }),
        ok tt,
      )
      else (r', err (not_found id))

  unfoldable pub unsubscribe_local :
      String → ServiceRegistry v → ServiceRegistry v × Result (Unit {0}) RegistryError
  unsubscribe_local id r = run (lookup id r.subscription_id_to_topic_path)
    where
      run : Option TopicPath → ServiceRegistry v × Result (Unit {0}) RegistryError
      run none = (r, err (unknown_id id))
      run (some topic) =
          unsubscribe_local_from id topic (find_matches topic r.local_event_subscriptions) r
