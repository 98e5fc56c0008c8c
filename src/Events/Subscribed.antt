-- ===== src/Events/Subscribed.antt =====
-- A subscription, and the events that its callback gets afterwards.
use rust_node.Base.{
  String, ◌≡◌, refl, ap, ◌∙◌, true, false, List, [], ◌∷◌, map, Option, some, Result, ok, err,
  Bool-cases, inl, inr, Perm, perm-concat, perm-map,
}
use rust_node.Base.Calls.{after, modify, return, ◌>>◌}
use rust_node.Base.Assoc.{insert}
use rust_node.Topic
use rust_node.Topic.{TopicPath, TopicError, DefaultHasher}
use rust_node.Trie.Search.{PathTrieMatch, find, find_matches}
use rust_node.Trie.Routing.{reaches, IsRoot}
use rust_node.Trie.{PathTrie, set_value}
use rust_node.Registry.{Vocabulary, ServiceRegistry}
use rust_node.Registry.Routes.{find-set_value}
use rust_node.Registry.Subscriptions.{
  RegistryError, add_entry, store_entry, get_local_event_subscribers,
}
use rust_node.Registry.LocalEvents.{record_service, register_local_event_subscription}
use rust_node.Messages.{Values}
use rust_node.Events.{
  EventNode, kept_with, node_changed, subscribe, notify_subscribers, publish_with_options,
}

store_entry-fresh {ℓ} :
    {A : Type ℓ} (topic : TopicPath) (new : A) (t : PathTrie (List A))
    (ms : List (PathTrieMatch (List A)))
    → map (λ m. m.content) ms ≡ []
    → store_entry topic new t ms ≡ set_value topic (new ∷ []) t
unfolding store_entry
store_entry-fresh topic new t [] e = refl
store_entry-fresh topic new t (m ∷ ms) e = cc

find-add_entry {ℓ} :
    {A : Type ℓ} (topic : TopicPath) (new : A) (t : PathTrie (List A))
    → topic.is_pattern ≡ false
    → IsRoot t
    → reaches topic topic ≡ true
    → find topic t ≡ []
    → Perm (find topic (add_entry topic new t)) ((new ∷ []) ∷ [])
unfolding add_entry find
find-add_entry topic new t concrete d own h =
    rw (store_entry-fresh topic new t (find_matches topic t) h)
      (rw h at (find-set_value topic (new ∷ []) t concrete d topic own))

module _ {v : Vocabulary} where
  record_service-same :
      (id : String) (metadata : Option v.EventMetadata) (r : ServiceRegistry v)
      (service : Result TopicPath TopicError)
      → (record_service id metadata r service).0.local_event_subscriptions
        ≡ r.local_event_subscriptions
  unfolding record_service
  record_service-same id metadata r (err e) = refl
  record_service-same id metadata r (ok topic) = refl

  kept_with-registry :
      (s : EventNode v) (p : ServiceRegistry v × Result String RegistryError)
      → ((after (λ id. modify node_changed >> return id) (kept_with s p)).1.service_registry ≡ p.0)
        × ((after (λ id. modify node_changed >> return id) (kept_with s p)).1.network_id
            ≡ s.network_id)
  unfolding node_changed
  kept_with-registry s (r, err e) = (refl, refl)
  kept_with-registry s (r, ok id) = elim (Bool-cases s.running) [
    | inl h ↦ rw h (refl, refl)
    | inr h ↦ rw h (refl, refl)
  ]

  -- A node where nothing is subscribed under a path that covers the topic.
  subscribe-subscribers :
      ⦃hasher : DefaultHasher⦄ (metadata : String → v.EventMetadata) (id path : String)
      (callback : v.EventCallback) (topic : TopicPath) (s : EventNode v)
      → Topic.new path s.network_id ≡ ok topic
      → ((subscribe metadata id path callback s).1.service_registry.local_event_subscriptions
          ≡ add_entry topic
              (id, callback, some (metadata topic.path))
              s.service_registry.local_event_subscriptions)
        × ((subscribe metadata id path callback s).1.network_id ≡ s.network_id)
  unfolding subscribe register_local_event_subscription
  subscribe-subscribers metadata id path callback topic s h =
      let service = Topic.new topic.service_path topic.network_id in
      let r = record s.service_registry {
        local_event_subscriptions =
            add_entry topic (id, callback, some (metadata topic.path))
              s.service_registry.local_event_subscriptions;
        subscription_id_to_topic_path =
            insert id topic s.service_registry.subscription_id_to_topic_path;
      } in
      let kept = kept_with-registry s (record_service id (some (metadata topic.path)) r service) in
      rw h (
        ap (λ r'. r'.local_event_subscriptions) kept.0
            ∙ record_service-same id (some (metadata topic.path)) r service,
        kept.1,
      )

module _ ⦃hasher : DefaultHasher⦄ {v : Vocabulary} (x : Values v) where
  -- A callback that subscribes to a concrete topic, where no subscription covers it, is called once
  -- by each event that is published there.
  pub subscribe-publish :
      (metadata : String → v.EventMetadata) (id path : String) (callback : v.EventCallback)
      (payload : Option x.Value) (topic : TopicPath) (s : EventNode v)
      → Topic.new path s.network_id ≡ ok topic
      → topic.is_pattern ≡ false
      → IsRoot s.service_registry.local_event_subscriptions
      → reaches topic topic ≡ true
      → find topic s.service_registry.local_event_subscriptions ≡ []
      → Perm
          (publish_with_options x path payload (subscribe metadata id path callback s).1).1
          (record { callback = callback; topic = topic; payload = payload } ∷ [])
  unfolding publish_with_options notify_subscribers get_local_event_subscribers find
  subscribe-publish metadata id path callback payload topic s h concrete d own fresh =
      let after = subscribe-subscribers metadata id path callback topic s h in
      rw (after.1, h, after.0)
        (perm-map {A = String × v.EventCallback}
          (λ subscriber. record { callback = subscriber.1; topic = topic; payload = payload })
          (perm-map {A = String × v.EventCallback × Option v.EventMetadata}
            (λ subscriber. (subscriber.0, subscriber.1))
            (perm-concat (
              find-add_entry topic (id, callback, some (metadata topic.path))
                s.service_registry.local_event_subscriptions concrete d own fresh))))
