-- ===== src/Transport/Quic.antt =====
-- src/network/transport/quic_transport.rs: `QuicTransportImpl`, and `connect_peer` of
-- `QuicTransport`. What quinn, rustls, bincode and the standard library's parser of addresses do is
-- a parameter. A task that was spawned for the messages of a peer is an entry of `receivers`, what
-- goes to the channel of node infos is in `published`, and what goes to the message handler, whose
-- outcome is only logged, is in `handled`. An operation runs with no other in between.
use rust_node.Base.{
  ℕ, String, Bool, true, false, not, List, [], Option, none, some, Result, ok, err, if◌then◌else◌,
}
use rust_node.Base.Assoc.{insert}
use rust_node.Base.Calls.{Call, ◌>>=◌, ◌>>◌, lift, modify, fail_when}
use rust_node.Network.{
  PeerId, NodeInfo, Bytes, NetworkMessage, NetworkError, connection_error, message_error,
  transport_error,
}
use rust_node.Connections.{
  Quinn, PeerState, ConnectionPool, is_connected as is_state_connected, get_send_stream, get_peer,
  remove_peer, is_peer_connected,
}
use rust_node.Transport.Frames.{length_prefix}

-- How an attempt to connect ends.
pub data Attempt (Connection : Type 0) : Type 0 where
  established : Connection → Attempt Connection
  not_initiated not_established : String → Attempt Connection

-- The code of other crates, in a state of the network.
pub record Crates (q : Quinn) (Service : Type 0) : Type 1 where
  pub Endpoint : Type 0
  pub SocketAddr : Type 0
  -- `create_quinn_configs`, which only sets rustls and quinn up, and `Endpoint::server`.
  pub create_quinn_configs : Result (Unit {0}) NetworkError
  pub server : q.World → Result Endpoint String × q.World
  pub close : Endpoint → q.World → q.World
  pub connect : Endpoint → SocketAddr → q.World → Attempt q.Connection × q.World
  pub write_all : q.SendStream → Bytes → q.World → Result (Unit {0}) String × q.World
  pub finish : q.SendStream → q.World → Result (Unit {0}) String × q.World
  pub parse : String → Result SocketAddr String
  pub serialize_message : NetworkMessage → Result Bytes String
  pub deserialize_message : Bytes → Result NetworkMessage String
  pub serialize_node : NodeInfo Service → Result Bytes String
  pub deserialize_node : Bytes → Result (NodeInfo Service) String

pub record QuicTransport {q : Quinn} {Service : Type 0} (crates : Crates q Service) : Type 0 where
  pub node_id : PeerId
  pub endpoint : Option crates.Endpoint
  pub connection_pool : ConnectionPool q Service
  pub max_idle_streams_per_peer : ℕ
  pub local_node : NodeInfo Service
  pub running : Bool
  pub receivers : List PeerId
  pub published : List (NodeInfo Service)
  pub handled : List NetworkMessage
  pub world : q.World

-- An error of a crate as an error of the transport.
abbrev pub or_message_error : {A : Type 0} → String → Result A String → Result A NetworkError
or_message_error text (err e) = err (message_error text)
or_message_error text (ok value) = ok value

module _ {q : Quinn} {Service : Type 0} where
  abbrev pub connected_state :
      Option (PeerState q Service) → Result (PeerState q Service) NetworkError
  connected_state none = err (connection_error "Peer ")
  connected_state (some s) =
      if is_state_connected s then ok s else err (connection_error "Not connected to peer ")

module _ {q : Quinn} {Service : Type 0} (crates : Crates q Service) where
  abbrev pub Quic : Type 0 → Type 0
  Quic A = Call (QuicTransport crates) NetworkError A

  abbrev pub new : NodeInfo Service → ℕ → q.World → QuicTransport crates
  new local_node max_idle_streams world = record {
    node_id = local_node.peer_id;
    endpoint = none;
    connection_pool = [];
    max_idle_streams_per_peer = max_idle_streams;
    local_node = local_node;
    running = false;
    receivers = [];
    published = [];
    handled = [];
    world = world;
  }

  abbrev pub require_running : Quic (Unit {0})
  require_running t = fail_when (not t.running) (transport_error "Transport not running") t

  -- The endpoint that was bound.
  abbrev pub bound : Result crates.Endpoint String × q.World → Quic (Unit {0})
  bound (err text, world) t =
      (err (transport_error "Failed to create endpoint: "), record t { world = world })
  bound (ok endpoint, world) t =
      (ok tt, record t { endpoint = some endpoint; world = world; running = true })

  unfoldable pub start : Quic (Unit {0})
  start t =
      if t.running
      then (ok tt, t)
      else (lift crates.create_quinn_configs >> bound (crates.server t.world)) t

  abbrev pub close_endpoint : Option crates.Endpoint → q.World → q.World
  close_endpoint none world = world
  close_endpoint (some endpoint) world = crates.close endpoint world

  -- The tasks are awaited, and taken out of their list.
  unfoldable pub stop : Quic (Unit {0})
  stop t =
      if t.running
      then (
        ok tt,
        record t { running = false; world = close_endpoint t.endpoint t.world; receivers = [] },
      )
      else (ok tt, t)

  unfoldable pub disconnect : PeerId → Quic (Unit {0})
  disconnect peer_id =
      require_running
      >> modify (λ t. record t { connection_pool = (remove_peer peer_id t.connection_pool).1 })

  unfoldable pub is_connected : PeerId → QuicTransport crates → Bool
  is_connected peer_id t = is_peer_connected peer_id t.connection_pool

  -- A stream of the peer, whose state the pool shares.
  abbrev pub take_stream : PeerId → PeerState q Service → Quic q.SendStream
  take_stream peer_id s t =
      let (outcome, s', world) = get_send_stream s t.world in
      (
        outcome,
        record t {
          connection_pool = insert peer_id.public_key s' t.connection_pool;
          world = world;
        },
      )

  -- A write on the stream.
  abbrev pub on_stream : String → (q.World → Result (Unit {0}) String × q.World) → Quic (Unit {0})
  on_stream text write t =
      let (outcome, world) = write t.world in
      (or_message_error text outcome, record t { world = world })

  abbrev pub write_message : NetworkMessage → q.SendStream → Quic (Unit {0})
  write_message message stream =
      lift (or_message_error "Failed to serialize message: " (crates.serialize_message message))
      >>= λ body.
          on_stream "Failed to write message length: "
            (crates.write_all stream (length_prefix body))
          >> on_stream "Failed to write message data: " (crates.write_all stream body)
          >> on_stream "Failed to finish stream: " (crates.finish stream)

  -- With what the pool has for the peer.
  abbrev pub send_to : NetworkMessage → Option (PeerState q Service) → Quic (Unit {0})
  send_to message found = lift (connected_state found) >>= λ s.
      take_stream message.destination s >>= write_message message

  unfoldable pub send_message : NetworkMessage → Quic (Unit {0})
  send_message message t =
      (require_running >> send_to message (get_peer message.destination t.connection_pool)) t
