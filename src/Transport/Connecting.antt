-- ===== src/Transport/Connecting.antt =====
-- src/network/transport/quic_transport.rs: connecting to peers, the messages about nodes that the
-- transport sends and answers itself, and what it does with a message and a connection that come in.
-- An operation runs with no other in between; the clock's reading and the id of a handshake, which
-- holds the time, are arguments.
use rust_node.Base.{
  ℕ, String, str_eq, Bool, not, ◌||◌, List, [], ◌∷◌, ◌++◌, Option, none, some, Result, ok, err,
  if◌then◌else◌,
}
use rust_node.Base.Assoc.{insert}
use rust_node.Base.Calls.{◌>>=◌, ◌>>◌, lift, modify, fail_when}
use rust_node.Network.{
  PeerId, new_peer_id, PeerInfo, NodeInfo, Bytes, NetworkMessage, NetworkMessagePayloadItem,
  NetworkError, connection_error, waits_for_ever, transport_error,
}
use rust_node.Connections.{
  Quinn, PeerState, set_node_info, set_connection, get_or_create_peer, get_peer, is_peer_connected,
  get_connected_peers,
}
use rust_node.Transport.Frames.{Read, receive_bytes}
use rust_node.Text.{◌⧺◌}
use rust_node.Trie.Removal.{is_nil}
use rust_node.Transport.Quic.{
  Quic, Crates, QuicTransport, Attempt, established, not_initiated, not_established,
  require_running, or_message_error, send_message,
}

abbrev pub or_failed : Option NetworkError → NetworkError
or_failed none = connection_error "Failed to connect to peer "
or_failed (some e) = e

abbrev pub node_message : PeerId → PeerId → String → String → Bytes → String → NetworkMessage
node_message source destination message_type path body correlation_id = record {
  source = source;
  destination = destination;
  message_type = message_type;
  payloads = record { path = path; value_bytes = body; correlation_id = correlation_id } ∷ [];
}

abbrev pub is_node_message : String → Bool
is_node_message t =
    str_eq t "NODE_INFO_HANDSHAKE"
    || str_eq t "NODE_INFO_HANDSHAKE_RESPONSE"
    || str_eq t "NODE_INFO_UPDATE"

module _ {q : Quinn} {Service : Type 0} (crates : Crates q Service) where
  -- The connection goes to the state of the peer, which the pool shares; then a task takes the
  -- peer's messages.
  abbrev pub establish : ℕ → PeerId → String → q.Connection → Quic crates (Unit {0})
  establish now peer_id address connection t =
      let (s, pool) =
        get_or_create_peer now peer_id address t.max_idle_streams_per_peer t.connection_pool in
      let (outcome, s') = set_connection now connection s in
      (lift outcome >> modify (λ t'. record t' { receivers = t'.receivers ++ peer_id ∷ [] }))
        (record t { connection_pool = insert peer_id.public_key s' pool })

  abbrev pub attempted :
      ℕ
      → PeerId
      → String
      → (Option NetworkError → Quic crates (Unit {0}))
      → Attempt q.Connection × q.World
      → Quic crates (Unit {0})
  attempted now peer_id address next (established connection, world) t =
      establish now peer_id address connection (record t { world = world })
  attempted now peer_id address next (not_initiated text, world) t =
      next (some (connection_error "Failed to initiate connection to "))
        (record t { world = world })
  attempted now peer_id address next (not_established text, world) t =
      next (some (connection_error "Failed to establish connection to "))
        (record t { world = world })

  -- One address: the next ones where it does not parse or does not connect.
  abbrev pub try_address :
      ℕ
      → PeerId
      → crates.Endpoint
      → String
      → (Option NetworkError → Quic crates (Unit {0}))
      → Result crates.SocketAddr String
      → Quic crates (Unit {0})
  try_address now peer_id endpoint address next (err text) t =
      next (some (connection_error "Invalid address ")) t
  try_address now peer_id endpoint address next (ok socket_addr) t =
      attempted now peer_id address next (crates.connect endpoint socket_addr t.world) t

  -- The loop over the addresses, with the last error.
  unfoldable pub try_addresses :
      ℕ → PeerId → crates.Endpoint → List String → Option NetworkError → Quic crates (Unit {0})
  try_addresses now peer_id endpoint [] last_error t = (err (or_failed last_error), t)
  try_addresses now peer_id endpoint (address ∷ addresses) last_error t =
      try_address now peer_id endpoint address (try_addresses now peer_id endpoint addresses)
        (crates.parse address) t

  abbrev pub connect_from :
      ℕ → PeerId → List String → Option crates.Endpoint → Quic crates (Unit {0})
  connect_from now peer_id addresses none t = (err (transport_error "Transport not initialized"), t)
  connect_from now peer_id addresses (some endpoint) t =
      try_addresses now peer_id endpoint addresses none t

  -- `QuicTransportImpl::connect_peer`; a peer that is connected already counts as a success.
  unfoldable pub connect_inner : ℕ → PeerInfo → Quic crates (Unit {0})
  connect_inner now info t =
      let peer_id = new_peer_id info.public_key in
      (require_running crates
          >> fail_when (is_nil info.addresses) (connection_error "No addresses found for peer")
          >> λ t'.
              if is_peer_connected peer_id t'.connection_pool
              then (ok tt, t')
              else connect_from now peer_id info.addresses t'.endpoint t')
        t

  -- The id of the correlation holds the time.
  unfoldable pub handshake_peer : String → PeerInfo → Quic crates (Unit {0})
  handshake_peer correlation_id info t =
      let peer_id = new_peer_id info.public_key in
      (require_running crates
          >> fail_when (not (is_peer_connected peer_id t.connection_pool))
              (connection_error "Not connected to peer ")
          >> lift (
              or_message_error "Failed to serialize node info: "
                (crates.serialize_node t.local_node))
          >>= λ body.
              send_message crates
                (node_message t.node_id peer_id "NODE_INFO_HANDSHAKE" "" body correlation_id))
        t

  -- `QuicTransport::connect_peer`.
  unfoldable pub connect_peer : ℕ → String → PeerInfo → Quic crates (Unit {0})
  connect_peer now correlation_id info =
      connect_inner now info >> handshake_peer correlation_id info

  -- `unwrap` of an error of the serialiser panics, which is an error here.
  abbrev pub send_update : NodeInfo Service → PeerId → Quic crates (Unit {0})
  send_update info peer_id t =
      (lift (or_message_error "unwrap" (crates.serialize_node info)) >>= λ body.
      send_message crates (node_message t.node_id peer_id "NODE_INFO_UPDATE" "" body ""))
        t

  -- The first failure ends the loop.
  unfoldable pub send_updates : NodeInfo Service → List PeerId → Quic crates (Unit {0})
  send_updates info [] t = (ok tt, t)
  send_updates info (peer_id ∷ peers) t = (send_update info peer_id >> send_updates info peers) t

  unfoldable pub update_peers : NodeInfo Service → Quic crates (Unit {0})
  update_peers info t = send_updates info (get_connected_peers t.connection_pool) t

  -- The answer to a handshake.
  abbrev pub respond : NetworkMessage → NetworkMessagePayloadItem → Quic crates (Unit {0})
  respond message payload t =
      (lift (
            or_message_error "Failed to serialize node info: " (crates.serialize_node t.local_node))
          >>= λ body. send_message crates (
              node_message t.node_id message.source "NODE_INFO_HANDSHAKE_RESPONSE" payload.path body
                payload.correlation_id))
        t

  -- Where the source has a state, it keeps the info, and a handshake is answered.
  abbrev pub keep_node_info :
      NetworkMessage
      → NetworkMessagePayloadItem
      → NodeInfo Service
      → Option (PeerState q Service)
      → Quic crates (Unit {0})
  keep_node_info message payload info none t = (ok tt, t)
  keep_node_info message payload info (some s) t =
      let t' = record t {
        connection_pool = insert message.source.public_key (set_node_info info s) t.connection_pool;
      } in
      if str_eq message.message_type "NODE_INFO_HANDSHAKE"
      then respond message payload t'
      else (ok tt, t')

  abbrev pub take_node_info :
      NetworkMessage
      → NetworkMessagePayloadItem
      → Result (NodeInfo Service) String
      → Quic crates (Unit {0})
  take_node_info message payload (err text) t = (ok tt, t)
  take_node_info message payload (ok info) t =
      (keep_node_info message payload info (get_peer message.source t.connection_pool)
          >> modify (λ t'. record t' { published = t'.published ++ info ∷ [] }))
        t

  -- Only the first payload of a message about a node is read.
  abbrev pub first_payload :
      NetworkMessage → List NetworkMessagePayloadItem → Quic crates (Unit {0})
  first_payload message [] t = (ok tt, t)
  first_payload message (payload ∷ payloads) t =
      take_node_info message payload (crates.deserialize_node payload.value_bytes) t

  unfoldable pub process_incoming_message : NetworkMessage → Quic crates (Unit {0})
  process_incoming_message message t =
      if is_node_message message.message_type
      then first_payload message message.payloads t
      else (ok tt, record t { handled = t.handled ++ message ∷ [] })

  -- A peer that connects is filed under its address, and its status is not sent.
  unfoldable pub handle_new_connection :
      ℕ → String → q.Connection → QuicTransport crates → QuicTransport crates
  handle_new_connection now remote_addr connection t =
      let peer_id = new_peer_id ("temp-" ⧺ remote_addr) in
      let (s, pool) =
        get_or_create_peer now peer_id remote_addr t.max_idle_streams_per_peer t.connection_pool in
      record t {
        connection_pool =
            insert peer_id.public_key (record s { connection = some connection }) pool;
        receivers = t.receivers ++ peer_id ∷ [];
      }

  -- A stream's message. The loops of `receive_bytes` end, so the first case does not arise.
  abbrev pub received : Option (Result Bytes NetworkError) → Quic crates (Unit {0})
  received none t = (err waits_for_ever, t)
  received (some outcome) t =
      (lift outcome >>= λ body.
      lift (or_message_error "Failed to deserialize message: " (crates.deserialize_message body))
      >>= process_incoming_message)
        t

  unfoldable pub receive_message : {S : Type 0} → (ℕ → S → Read × S) → S → Quic crates (Unit {0})
  receive_message read_chunk s = received (receive_bytes read_chunk s)
