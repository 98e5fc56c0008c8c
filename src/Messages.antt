-- ===== src/Messages.antt =====
-- src/node.rs: the messages of other nodes, `handle_network_message` and what it calls, and
-- src/services/remote_service.rs: a request that is forwarded to a peer. `Pending` is the side that
-- asks. Values, their serialiser and what a handler of a service gives are parameters; what goes to
-- the transport is a list. An operation runs with no other in between.
pub mod Pending
pub mod Laws
mod Tests
use rust_node.Base.{
  String, str_eq, Bool, true, false, not, List, [], ◌∷◌, ◌++◌, map, Option, none, some, Result, ok,
  err, if◌then◌else◌,
}
use rust_node.Trie.Removal.{is_nil}
use rust_node.Network.{PeerId, Bytes, NetworkMessage, NetworkMessagePayloadItem}
use rust_node.Topic
use rust_node.Topic.{TopicPath, TopicError, DefaultHasher}
use rust_node.Topic.Template.{extract_params}
use rust_node.Registry.{Vocabulary, get_local_action_handler}
use rust_node.Requests.{Node, Route, local, params_or_none}

-- `ArcValueType` and its serialiser, and the outcomes of handlers.
pub record Values (v : Vocabulary) : Type 1 where
  pub Value : Type 0
  pub is_null : Value → Bool
  pub null : Value
  -- The map with the text of an error.
  pub error_value : String → Value
  pub serialize_value : Value → Result Bytes String
  pub deserialize_value : Bytes → Result Value String
  pub run : Route v.ActionHandler → Option Value → Result (Option Value) String

-- No value where it is null.
abbrev pub non_null : {v : Vocabulary} → (x : Values v) → x.Value → Option x.Value
non_null x value = if x.is_null value then none else some value

abbrev pub value_or_null : {v : Vocabulary} → (x : Values v) → Option x.Value → x.Value
value_or_null x none = x.null
value_or_null x (some value) = value

-- A message with one payload, to the node that asked.
abbrev pub reply :
    PeerId → NetworkMessage → String → NetworkMessagePayloadItem → Bytes → NetworkMessage
reply node_id message message_type item body = record {
  source = node_id;
  destination = message.source;
  message_type = message_type;
  payloads = record item { value_bytes = body } ∷ [];
}

abbrev pub serialized :
    PeerId
    → NetworkMessage
    → String
    → NetworkMessagePayloadItem
    → Result Bytes String
    → Result NetworkMessage String
serialized node_id message message_type item (err e) = err "Failed to serialize response: "
serialized node_id message message_type item (ok body) =
    ok (reply node_id message message_type item body)

-- An error ends the loop, with the answers so far sent.
abbrev pub and_then :
    Result NetworkMessage String
    → Result (Unit {0}) String × List NetworkMessage
    → Result (Unit {0}) String × List NetworkMessage
and_then (err e) later = (err e, [])
and_then (ok message) (outcome, messages) = (outcome, message ∷ messages)

module _ ⦃hasher : DefaultHasher⦄ {v : Vocabulary} (x : Values v) where
  -- The local handler of the topic.
  abbrev pub run_local :
      TopicPath
      → Option (v.ActionHandler × TopicPath)
      → Option x.Value
      → Result (Option x.Value) String
  run_local topic none params = err "No local handler found for topic: "
  run_local topic (some (handler, registration)) params =
      x.run (local handler (params_or_none (extract_params topic registration.cached_action_path)))
        params

  abbrev pub run_parsed :
      Node v → Result TopicPath TopicError → Option x.Value → Result (Option x.Value) String
  run_parsed node (err e) params = err "Failed to parse topic path: "
  run_parsed node (ok topic) params =
      run_local topic (get_local_action_handler topic node.service_registry) params

  unfoldable pub local_request : Node v → String → Option x.Value → Result (Option x.Value) String
  local_request node path params = run_parsed node (Topic.new path node.network_id) params

  -- What a handled request is answered with.
  abbrev pub answer :
      PeerId
      → NetworkMessage
      → NetworkMessagePayloadItem
      → Result (Option x.Value) String
      → Result NetworkMessage String
  answer node_id message item (ok response) =
      serialized node_id message "Response" item (x.serialize_value (value_or_null x response))
  answer node_id message item (err text) =
      serialized node_id message "Error" item (x.serialize_value (x.error_value text))

  abbrev pub answer_value :
      PeerId
      → Node v
      → NetworkMessage
      → NetworkMessagePayloadItem
      → Result x.Value String
      → Result NetworkMessage String
  answer_value node_id node message item (err e) = err "Failed to deserialize request payload: "
  answer_value node_id node message item (ok value) =
      answer node_id message item (local_request node item.path (non_null x value))

  unfoldable pub answer_all :
      PeerId
      → Node v
      → NetworkMessage
      → List NetworkMessagePayloadItem
      → Result (Unit {0}) String × List NetworkMessage
  answer_all node_id node message [] = (ok tt, [])
  answer_all node_id node message (item ∷ rest) =
      and_then (answer_value node_id node message item (x.deserialize_value item.value_bytes))
        (answer_all node_id node message rest)

  -- The outcome, and what goes to the transport, where there is one.
  unfoldable pub handle_network_request :
      PeerId → Node v → Bool → NetworkMessage → Result (Unit {0}) String × List NetworkMessage
  handle_network_request node_id node supports_networking message =
      if not supports_networking
      then (ok tt, [])
      else if is_nil message.payloads
      then (err "Received request message with no payloads", [])
      else answer_all node_id node message message.payloads
