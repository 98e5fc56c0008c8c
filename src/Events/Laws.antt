-- ===== src/Events/Laws.antt =====
-- What events the subscribers of a node get, from the node itself and from others.
use rust_node.Base.{
  String, str_eq, ◌≡◌, refl, sym, ◌∙◌, ap, ap₂, true, List, [], ◌∷◌, ◌++◌, Result, ok, err,
  Bool-cases, inl, inr, eq_iff,
}
use rust_node.Text.{split_nonempty}
use rust_node.Network.{NetworkMessage, NetworkMessagePayloadItem}
use rust_node.Topic
use rust_node.Topic.{
  TopicPath, TopicError, DefaultHasher, split_network, some_segments, no_segments,
}
use rust_node.Registry.{Vocabulary}
use rust_node.Messages.{Values, non_null}
use rust_node.Events.{
  EventNode, Delivery, notify_payload, publish_to, publish_with_options, handle_payload,
  handle_event_payloads, handle_network_event,
}

new-empty :
    ⦃hasher : DefaultHasher⦄ (network_id : String) → Topic.new "" network_id ≡ err no_segments
unfolding Topic.new split_network some_segments split_nonempty
new-empty network_id = refl

module _ ⦃hasher : DefaultHasher⦄ {v : Vocabulary} (x : Values v) where
  -- What publishing the value at the node itself delivers.
  abbrev pub published : EventNode v → String → Result x.Value String → List (Delivery x)
  published s path (err e) = []
  published s path (ok value) = (publish_with_options x path (non_null x value) s).1

  abbrev pub publish_each : EventNode v → List NetworkMessagePayloadItem → List (Delivery x)
  publish_each s [] = []
  publish_each s (item ∷ rest) =
      published s item.path (x.deserialize_value item.value_bytes) ++ publish_each s rest

  notify_payload-err :
      (s : EventNode v) (topic : Result TopicPath TopicError) (text : String)
      → notify_payload x s topic (err text) ≡ []
  notify_payload-err s (err e) text = refl
  notify_payload-err s (ok topic) text = refl

  notify_payload-ok :
      (s : EventNode v) (topic : Result TopicPath TopicError) (value : x.Value)
      → notify_payload x s topic (ok value) ≡ (publish_to x s (non_null x value) topic).1
  notify_payload-ok s (err e) value = refl
  notify_payload-ok s (ok topic) value = refl

  notify_payload-eq :
      (s : EventNode v) (path : String) (read : Result x.Value String)
      → notify_payload x s (Topic.new path s.network_id) read ≡ published s path read
  unfolding publish_with_options
  notify_payload-eq s path (err text) = notify_payload-err s (Topic.new path s.network_id) text
  notify_payload-eq s path (ok value) = notify_payload-ok s (Topic.new path s.network_id) value

  published-empty :
      (s : EventNode v) (path : String) (read : Result x.Value String)
      → path ≡ ""
      → [] ≡ published s path read
  unfolding publish_with_options
  published-empty s path (err text) h = refl
  published-empty s path (ok value) h = sym (
      ap (λ t. (publish_to x s (non_null x value) t).1)
        (ap (λ p. Topic.new p s.network_id) h ∙ new-empty s.network_id))

  handle_payload-eq :
      (s : EventNode v) (item : NetworkMessagePayloadItem)
      → handle_payload x s item ≡ published s item.path (x.deserialize_value item.value_bytes)
  unfolding handle_payload
  handle_payload-eq s item = elim (Bool-cases (str_eq item.path "")) [
    | inl h ↦ rw h (
        published-empty s item.path (x.deserialize_value item.value_bytes)
          ((eq_iff item.path "").0 h))
    | inr h ↦ rw h (notify_payload-eq s item.path (x.deserialize_value item.value_bytes))
  ]

  handle_event_payloads-eq :
      (s : EventNode v) (items : List NetworkMessagePayloadItem)
      → handle_event_payloads x s items ≡ publish_each s items
  unfolding handle_event_payloads
  handle_event_payloads-eq s [] = refl
  handle_event_payloads-eq s (item ∷ rest) =
      ap₂ (λ xs ys. xs ++ ys) (handle_payload-eq s item) (handle_event_payloads-eq s rest)

  -- What an event of another node delivers to the subscribers of this node is what publishing each
  -- of its payloads here delivers, one after the other. Data that cannot be read is skipped, and null
  -- is no data.
  pub handle_network_event-publishes :
      (message : NetworkMessage) (s : EventNode v)
      → handle_network_event x true message s ≡ publish_each s message.payloads
  unfolding handle_network_event
  handle_network_event-publishes message s = handle_event_payloads-eq s message.payloads
