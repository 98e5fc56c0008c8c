-- ===== src/Transport/Untouched.antt =====
-- Handshakes, updates and messages that come in leave the connections and the statuses of all
-- peers alone.
use rust_node.Base.{
  String, str_eq, ◌≡◌, refl, ◌∙◌, List, [], ◌∷◌, Option, none, some, Result, ok, err, Bool-cases,
  inl, inr,
}
use rust_node.Base.Assoc.{insert}
use rust_node.Base.Calls.{lift}
use rust_node.Base.Calls.Laws.{after-keeps}
use rust_node.Network.{
  PeerId, new_peer_id, PeerInfo, NodeInfo, NetworkMessage, NetworkMessagePayloadItem,
}
use rust_node.Connections.{Quinn, PeerState, set_node_info, get_peer, is_peer_connected}
use rust_node.Transport.Sending.{links-insert, peer_links, send_message-links}
use rust_node.Transport.Quic.{Crates, QuicTransport, or_message_error}
use rust_node.Transport.Connecting.{
  handshake_peer, node_message, is_node_message, send_update, send_updates, respond, keep_node_info,
  take_node_info, first_payload, process_incoming_message,
}

module _ {q : Quinn} {Service : Type 0} (crates : Crates q Service) where
  pub handshake_peer-links :
      (correlation_id : String) (info : PeerInfo) (t : QuicTransport crates) (k : String)
      → peer_links crates k (handshake_peer crates correlation_id info t).1 ≡ peer_links crates k t
  unfolding handshake_peer
  handshake_peer-links correlation_id info t k = elim (Bool-cases t.running) [
    | inl r ↦
        elim (Bool-cases (is_peer_connected (new_peer_id info.public_key) t.connection_pool)) [
          | inl c ↦
              simp (r, c)
                (after-keeps (peer_links crates k) _
                  (lift
                    (or_message_error "Failed to serialize node info: "
                      (crates.serialize_node t.local_node))
                    t)
                  refl
                  (λ body t'.
                    send_message-links crates
                      (node_message t.node_id (new_peer_id info.public_key) "NODE_INFO_HANDSHAKE" ""
                        body correlation_id)
                      t' k))
          | inr c ↦ simp (r, c) refl
        ]
    | inr r ↦ simp r refl
  ]

  send_update-links :
      (info : NodeInfo Service) (id : PeerId) (t : QuicTransport crates) (k : String)
      → peer_links crates k (send_update crates info id t).1 ≡ peer_links crates k t
  send_update-links info id t k =
      after-keeps (peer_links crates k) _
        (lift (or_message_error "unwrap" (crates.serialize_node info)) t) refl
        (λ body t'.
          send_message-links crates (node_message t.node_id id "NODE_INFO_UPDATE" "" body "") t' k)

  pub send_updates-links :
      (info : NodeInfo Service) (peers : List PeerId) (t : QuicTransport crates) (k : String)
      → peer_links crates k (send_updates crates info peers t).1 ≡ peer_links crates k t
  unfolding send_updates
  send_updates-links info [] t k = refl
  send_updates-links info (id ∷ peers) t k =
      after-keeps (peer_links crates k) (λ _. send_updates crates info peers)
        (send_update crates info id t) (send_update-links info id t k)
        (λ u t'. send_updates-links info peers t' k)

  respond-links :
      (message : NetworkMessage) (payload : NetworkMessagePayloadItem) (t : QuicTransport crates)
      (k : String)
      → peer_links crates k (respond crates message payload t).1 ≡ peer_links crates k t
  respond-links message payload t k =
      after-keeps (peer_links crates k) _
        (lift
          (or_message_error "Failed to serialize node info: " (crates.serialize_node t.local_node))
          t)
        refl
        (λ body t'.
          send_message-links crates
            (node_message t.node_id message.source "NODE_INFO_HANDSHAKE_RESPONSE" payload.path body
              payload.correlation_id)
            t' k)

  keep_node_info-links :
      (message : NetworkMessage) (payload : NetworkMessagePayloadItem) (info : NodeInfo Service)
      (found : Option (PeerState q Service)) (t : QuicTransport crates) (k : String)
      → get_peer message.source t.connection_pool ≡ found
      → peer_links crates k (keep_node_info crates message payload info found t).1
        ≡ peer_links crates k t
  unfolding get_peer set_node_info
  keep_node_info-links message payload info none t k h = refl
  keep_node_info-links message payload info (some s) t k h =
      elim (Bool-cases (str_eq message.message_type "NODE_INFO_HANDSHAKE")) [
        | inl e ↦ rw e (respond-links message payload stored k ∙ same)
        | inr e ↦ rw e same
      ]
    where
      stored : QuicTransport crates
      stored = record t {
        connection_pool = insert message.source.public_key (set_node_info info s) t.connection_pool;
      }

      same : peer_links crates k stored ≡ peer_links crates k t
      same =
          links-insert message.source.public_key s (set_node_info info s) t.connection_pool h refl k

  pub process_incoming_message-links :
      (message : NetworkMessage) (t : QuicTransport crates) (k : String)
      → peer_links crates k (process_incoming_message crates message t).1 ≡ peer_links crates k t
  unfolding process_incoming_message
  process_incoming_message-links message t k =
      elim (Bool-cases (is_node_message message.message_type)) [
        | inl e ↦ rw e (payload message.payloads)
        | inr e ↦ rw e refl
      ]
    where
      node_info :
          (p : NetworkMessagePayloadItem) (r : Result (NodeInfo Service) String)
          → peer_links crates k (take_node_info crates message p r t).1 ≡ peer_links crates k t
      node_info p (err text) = refl
      node_info p (ok info) =
          after-keeps (peer_links crates k) _
            (keep_node_info crates message p info (get_peer message.source t.connection_pool) t)
            (keep_node_info-links message p info (get_peer message.source t.connection_pool) t k
              refl)
            (λ u t'. refl)

      payload :
          (ps : List NetworkMessagePayloadItem)
          → peer_links crates k (first_payload crates message ps t).1 ≡ peer_links crates k t
      payload [] = refl
      payload (p ∷ ps) = node_info p (crates.deserialize_node p.value_bytes)
