-- ===== src/Messages/Pending.antt =====
-- src/node.rs and src/services/remote_service.rs: the requests of a node that wait for the answer of
-- a peer. A sender of a channel is the number of its call, and `delivered` is what the senders sent.
use rust_node.Base.{
  ℕ, String, str_eq, Bool, List, [], ◌∷◌, ◌++◌, Option, none, some, Result, ok, err, if◌then◌else◌,
}
use rust_node.Base.Assoc.{lookup, insert, remove}
use rust_node.Base.Calls.{Call, ◌>>=◌, ◌>>◌, lift, modify}
use rust_node.Network.{PeerId, Bytes, NetworkMessage, NetworkMessagePayloadItem, NetworkError}
use rust_node.Registry.{Vocabulary}
use rust_node.Messages.{Values, value_or_null}

pub record Pending {v : Vocabulary} (x : Values v) : Type 0 where
  pub pending_requests : List (String × ℕ)
  pub delivered : List (ℕ × Result (Option x.Value) String)

-- How the wait for an answer ends.
pub data Wait {v : Vocabulary} (x : Values v) : Type 0 where
  answered : Result (Option x.Value) String → Wait x
  channel_closed timed_out : Wait x

module _ {v : Vocabulary} (x : Values v) where
  abbrev pub deliver : ℕ → Result (Option x.Value) String → Pending x → Pending x
  deliver sender outcome p = record p { delivered = p.delivered ++ (sender, outcome) ∷ [] }

  abbrev pub response_value : Result x.Value String → Result (Option x.Value) String
  response_value (err e) = err "Failed to deserialize response: "
  response_value (ok value) = ok (some value)

  -- With the sender that was taken out of the map.
  abbrev pub respond_to : Option ℕ → NetworkMessagePayloadItem → Pending x → Pending x
  respond_to none item p = p
  respond_to (some sender) item p =
      deliver sender (response_value (x.deserialize_value item.value_bytes))
        (record p { pending_requests = remove item.correlation_id p.pending_requests })

  unfoldable pub handle_payloads : List NetworkMessagePayloadItem → Pending x → Pending x
  handle_payloads [] p = p
  handle_payloads (item ∷ rest) p =
      handle_payloads rest (respond_to (lookup item.correlation_id p.pending_requests) item p)

  unfoldable pub handle_network_response : Bool → NetworkMessage → Pending x → Pending x
  handle_network_response supports_networking message p =
      if supports_networking then handle_payloads message.payloads p else p

  -- What `handle_network_message` does with the pending requests: only a response reads them, and a
  -- message of an unknown type is dropped.
  unfoldable pub handle_network_message : Bool → NetworkMessage → Pending x → Pending x
  handle_network_message supports_networking message p =
      if supports_networking
      then (if str_eq message.message_type "Response"
          then handle_network_response supports_networking message p
          else p)
      else p

  abbrev pub drop_pending : String → Pending x → Pending x
  drop_pending id p = record p { pending_requests = remove id p.pending_requests }

  -- The message of a request: `local_node_id` and `peer_id` of the service, the path of the action.
  abbrev pub request_message : PeerId → PeerId → String → String → Bytes → NetworkMessage
  request_message local_node_id peer_id path id body = record {
    source = local_node_id;
    destination = peer_id;
    message_type = "Request";
    payloads = record { path = path; value_bytes = body; correlation_id = id } ∷ [];
  }

  abbrev pub sent_or_dropped :
      String → Result (Unit {0}) NetworkError → Call (Pending x) String (Unit {0})
  sent_or_dropped id (err e) p = (err "Failed to send request: ", drop_pending id p)
  sent_or_dropped id (ok u) p = (ok tt, p)

  -- The send of the request, by what the transport makes of a message: without a transport, the
  -- entry stays.
  abbrev pub send_request :
      String
      → NetworkMessage
      → Option (NetworkMessage → Result (Unit {0}) NetworkError)
      → Call (Pending x) String (Unit {0})
  send_request id message none p = (err "Network transport not available", p)
  send_request id message (some transport) p = sent_or_dropped id (transport message) p

  abbrev pub serialized_params : Result Bytes String → Result Bytes String
  serialized_params (err e) = err "Serialization error: "
  serialized_params (ok body) = ok body

  -- A handler that forwards, up to its wait: the transport, where there is one, the service's
  -- node and peer, the path of the action, the id, the number of the call, and the parameters.
  unfoldable pub forward_request :
      Option (NetworkMessage → Result (Unit {0}) NetworkError)
      → PeerId
      → PeerId
      → String
      → String
      → ℕ
      → Option x.Value
      → Call (Pending x) String (Unit {0})
  forward_request transport local_node_id peer_id path id sender params p =
      (modify (λ q. record q { pending_requests = insert id sender q.pending_requests })
          >> lift (serialized_params (x.serialize_value (value_or_null x params)))
          >>= λ body.
              send_request id (request_message local_node_id peer_id path id body) transport)
        p

  -- After the wait.
  unfoldable pub finish_request : String → Wait x → Call (Pending x) String (Option x.Value)
  finish_request id (answered (ok response)) p = (ok response, p)
  finish_request id (answered (err e)) p = (err "Remote service error: ", p)
  finish_request id channel_closed p = (err "Response channel closed", drop_pending id p)
  finish_request id timed_out p = (err "Request timeout", drop_pending id p)
