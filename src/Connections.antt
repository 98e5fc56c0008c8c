-- ===== src/Connections.antt =====
-- src/network/transport/stream_pool.rs, peer_state.rs and connection_pool.rs: the streams and the
-- connection of each peer. A lock guards each field; an operation here runs with no other in
-- between. The pool keeps the state of a peer by value: a task that still holds a removed state
-- sees what `remove_peer` gives back with the pool. Log lines are left out.
pub mod Laws
mod Tests
use rust_node.Base.{
  ℕ, String, Bool, true, false, List, [], ◌∷◌, ◌++◌, map, filter, length, last, init, Option, none,
  some, Result, ok, err, if◌then◌else◌, ltb, is_some,
}
use rust_node.Base.Assoc.{lookup, insert, remove}
use rust_node.Base.Calls.{Call, ◌>>◌, modify}
use rust_node.Network.{PeerId, NodeInfo, NetworkError, connection_error, waits_for_ever}

-- src/network/transport/stream_pool.rs
pub record StreamPool (Stream : Type 0) : Type 0 where
  pub idle_streams : List Stream
  pub max_idle_streams : ℕ

module _ {Stream : Type 0} where
  abbrev pub new_streams : ℕ → StreamPool Stream
  new_streams max_idle_streams = record { idle_streams = []; max_idle_streams = max_idle_streams }

  -- `Vec::pop` takes the last stream.
  unfoldable pub get_idle_stream : StreamPool Stream → Option Stream × StreamPool Stream
  get_idle_stream p = (last p.idle_streams, record p { idle_streams = init p.idle_streams })

  -- A full pool drops the stream. Always `Ok`.
  unfoldable pub return_stream : Stream → StreamPool Stream → StreamPool Stream
  return_stream stream p =
      if ltb (length p.idle_streams) p.max_idle_streams
      then record p { idle_streams = p.idle_streams ++ stream ∷ [] }
      else p

  unfoldable pub clear : StreamPool Stream → StreamPool Stream
  clear p = record p { idle_streams = [] }

-- The parts of quinn that the code calls, on a state of the network that they may change. The texts
-- are those of quinn's errors.
pub record Quinn : Type 1 where
  pub World : Type 0
  pub Connection : Type 0
  pub SendStream : Type 0
  pub open_uni : Connection → World → Result SendStream String × World
  pub close : Connection → World → World

-- src/network/transport/peer_state.rs: `statuses` is the channel's content.
pub record PeerState (q : Quinn) (Service : Type 0) : Type 0 where
  pub peer_id : PeerId
  pub address : String
  pub stream_pool : StreamPool q.SendStream
  pub connection : Option q.Connection
  pub last_activity : ℕ
  pub statuses : List Bool
  pub node_info : Option (NodeInfo Service)

abbrev pub opened : {Stream : Type 0} → Result Stream String → Result Stream NetworkError
opened (ok stream) = ok stream
opened (err text) = err (connection_error "Failed to open stream: ")

-- A new stream of the connection.
abbrev pub open_stream :
    (q : Quinn) → Option q.Connection → q.World → Result q.SendStream NetworkError × q.World
open_stream q none world = (err (connection_error "Not connected to peer"), world)
open_stream q (some connection) world =
    let (outcome, later) = q.open_uni connection world in (opened outcome, later)

module _ {q : Quinn} {Service : Type 0} where
  abbrev pub new_state : ℕ → PeerId → String → ℕ → PeerState q Service
  new_state now peer_id address max_idle_streams = record {
    peer_id = peer_id;
    address = address;
    stream_pool = new_streams max_idle_streams;
    connection = none;
    last_activity = now;
    statuses = [];
    node_info = none;
  }

  unfoldable pub set_node_info : NodeInfo Service → PeerState q Service → PeerState q Service
  set_node_info info s = record s { node_info = some info }

  -- The channel has room for ten, and nothing takes from it.
  abbrev pub send_status : Bool → Call (PeerState q Service) NetworkError (Unit {0})
  send_status status s =
      if ltb (length s.statuses) 10
      then (ok tt, record s { statuses = s.statuses ++ status ∷ [] })
      else (err waits_for_ever, s)

  unfoldable pub set_connection :
      ℕ → q.Connection → Call (PeerState q Service) NetworkError (Unit {0})
  set_connection now connection s =
      send_status true (record s { connection = some connection; last_activity = now })

  unfoldable pub is_connected : PeerState q Service → Bool
  is_connected s = is_some s.connection

  -- An idle stream, or a new one.
  abbrev pub stream_from :
      Option q.SendStream × StreamPool q.SendStream
      → PeerState q Service
      → q.World
      → Result q.SendStream NetworkError × PeerState q Service × q.World
  stream_from (some stream, pool) s world = (ok stream, record s { stream_pool = pool }, world)
  stream_from (none, pool) s world =
      let (outcome, later) = open_stream q s.connection world in
      (outcome, record s { stream_pool = pool }, later)

  unfoldable pub get_send_stream :
      PeerState q Service
      → q.World
      → Result q.SendStream NetworkError × PeerState q Service × q.World
  get_send_stream s world = stream_from (get_idle_stream s.stream_pool) s world

  unfoldable pub return_send_stream : q.SendStream → PeerState q Service → PeerState q Service
  return_send_stream stream s = record s { stream_pool = return_stream stream s.stream_pool }

  unfoldable pub update_activity : ℕ → PeerState q Service → PeerState q Service
  update_activity now s = record s { last_activity = now }

  -- With the connection that was taken out. The streams go last.
  abbrev pub close_taken :
      Option q.Connection → Call (PeerState q Service × q.World) NetworkError (Unit {0})
  close_taken none (s, world) = (ok tt, (record s { stream_pool = clear s.stream_pool }, world))
  close_taken (some connection) (s, world) =
      let (outcome, s') = (send_status false >> modify cleared) s in
      (outcome, (s', q.close connection world))
    where
      cleared : PeerState q Service → PeerState q Service
      cleared s = record s { stream_pool = clear s.stream_pool }

  unfoldable pub close_connection : Call (PeerState q Service × q.World) NetworkError (Unit {0})
  close_connection (s, world) = close_taken s.connection (record s { connection = none }, world)

-- src/network/transport/connection_pool.rs: the states by the key of the peer.
abbrev pub ConnectionPool : Quinn → Type 0 → Type 0
ConnectionPool q Service = List (String × PeerState q Service)

module _ {q : Quinn} {Service : Type 0} where
  abbrev pub get_or_new :
      ℕ
      → PeerId
      → String
      → ℕ
      → ConnectionPool q Service
      → Option (PeerState q Service)
      → PeerState q Service × ConnectionPool q Service
  get_or_new now peer_id address max_idle_streams pool (some s) = (s, pool)
  get_or_new now peer_id address max_idle_streams pool none =
      let s = new_state now peer_id address max_idle_streams in
      (s, insert peer_id.public_key s pool)

  -- A known peer keeps its address.
  unfoldable pub get_or_create_peer :
      ℕ
      → PeerId
      → String
      → ℕ
      → ConnectionPool q Service
      → PeerState q Service × ConnectionPool q Service
  get_or_create_peer now peer_id address max_idle_streams pool =
      get_or_new now peer_id address max_idle_streams pool (lookup peer_id.public_key pool)

  unfoldable pub get_peer : PeerId → ConnectionPool q Service → Option (PeerState q Service)
  get_peer peer_id pool = lookup peer_id.public_key pool

  -- The state as its other holders see it.
  abbrev pub without_connection : Option (PeerState q Service) → Option (PeerState q Service)
  without_connection none = none
  without_connection (some s) = some (record s { connection = none })

  unfoldable pub remove_peer :
      PeerId → ConnectionPool q Service → Option (PeerState q Service) × ConnectionPool q Service
  remove_peer peer_id pool =
      (without_connection (lookup peer_id.public_key pool), remove peer_id.public_key pool)

  abbrev pub connected : Option (PeerState q Service) → Bool
  connected none = false
  connected (some s) = is_some s.connection

  unfoldable pub is_peer_connected : PeerId → ConnectionPool q Service → Bool
  is_peer_connected peer_id pool = connected (lookup peer_id.public_key pool)

  -- In the map's order.
  unfoldable pub get_connected_peers : ConnectionPool q Service → List PeerId
  get_connected_peers pool =
      map (λ e. record { public_key = e.0 }) (filter (λ e. is_some e.1.connection) pool)
