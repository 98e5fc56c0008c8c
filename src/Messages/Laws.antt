-- ===== src/Messages/Laws.antt =====
-- A request to a peer, from the handler that forwards it to the answer that the caller gets.
use rust_node.Base.{
  ℕ, String, eq_refl, ◌≡◌, refl, ap, true, List, [], ◌∷◌, Option, none, some, Result, ok, err,
  Result-cases, inl, inr,
}
use rust_node.Base.Assoc.{lookup, insert, lookup-insert}
use rust_node.Network.{PeerId, Bytes, NetworkMessage, NetworkMessagePayloadItem}
use rust_node.Topic.{DefaultHasher}
use rust_node.Registry.{Vocabulary}
use rust_node.Requests.{Node}
use rust_node.Messages.{
  Values, non_null, value_or_null, local_request, reply, serialized, answer, answer_all,
  handle_network_request,
}
use rust_node.Messages.Pending.{Pending, handle_network_message, forward_request}

-- The messages of a peer, one after the other.
abbrev pub handle_all :
    {v : Vocabulary} → (x : Values v) → List NetworkMessage → Pending x → Pending x
handle_all x [] p = p
handle_all x (message ∷ rest) p = handle_all x rest (handle_network_message x true message p)

-- The serialiser is read back by the deserialiser.
abbrev pub ReadsBack : {v : Vocabulary} → Values v → Type 0
ReadsBack x =
    (value : x.Value) (body : Bytes)
    → x.serialize_value value ≡ ok body
    → x.deserialize_value body ≡ ok value

waits_under :
    (id : String) (sender : ℕ) (pending : List (String × ℕ))
    → lookup id (insert id sender pending) ≡ some sender
waits_under id sender pending = rw (lookup-insert id id sender pending, eq_refl id) refl

module _ ⦃hasher : DefaultHasher⦄ {v : Vocabulary} (x : Values v) where
  answer_one :
      (node_id : PeerId) (node : Node v) (message : NetworkMessage)
      (item : NetworkMessagePayloadItem) (params : x.Value)
      (outcome : Result (Option x.Value) String) (sent : NetworkMessage)
      → message.payloads ≡ item ∷ []
      → x.deserialize_value item.value_bytes ≡ ok params
      → local_request x node item.path (non_null x params) ≡ outcome
      → answer x node_id message item outcome ≡ ok sent
      → (handle_network_request x node_id node true message).1 ≡ sent ∷ []
  unfolding handle_network_request answer_all
  answer_one node_id node message item params outcome sent only read run built =
      rw (only, read, run, built) refl

  -- A request with one payload that fails at the peer: the answer that the peer sends leaves the
  -- pending requests and the callers that wait as they are.
  pub handle_network_request-dropped :
      (node_id : PeerId) (node : Node v) (message : NetworkMessage)
      (item : NetworkMessagePayloadItem) (params : x.Value) (text : String) (body : Bytes)
      (p : Pending x)
      → message.payloads ≡ item ∷ []
      → x.deserialize_value item.value_bytes ≡ ok params
      → local_request x node item.path (non_null x params) ≡ err text
      → x.serialize_value (x.error_value text) ≡ ok body
      → handle_all x (handle_network_request x node_id node true message).1 p ≡ p
  unfolding handle_network_message
  handle_network_request-dropped node_id node message item params text body p only read run
        written =
      ap (λ messages. handle_all x messages p)
        (answer_one node_id node message item params (err text)
          (reply node_id message "Error" item body) only read run
          (ap (serialized node_id message "Error" item) written))

module _ {v : Vocabulary} (x : Values v) where
  -- Without a transport, a request that is forwarded fails, and stays among the pending ones.
  forward_request-stays :
      (from to : PeerId) (path id : String) (sender : ℕ) (params : Option x.Value) (p : Pending x)
      → (text : String) × ((forward_request x none from to path id sender params p).0 ≡ err text)
        × (lookup id (forward_request x none from to path id sender params p).1.pending_requests
            ≡ some sender)
  unfolding forward_request
  forward_request-stays from to path id sender params p =
      elim (Result-cases (x.serialize_value (value_or_null x params))) [
        | inl (body, e) ↦
            rw e ("Network transport not available", refl, waits_under id sender p.pending_requests)
        | inr (text, e) ↦
            rw e ("Serialization error: ", refl, waits_under id sender p.pending_requests)
      ]
