-- ===== src/Transport/Tests.antt =====
-- Runs of the transport on a small network, and the theorems about it at concrete inputs.
use rust_node.Base.{
  zero, suc, ap, ℕ, ◌+◌, ◌<◌, String, ◌≡◌, ◌≢◌, refl, Bool, true, false, [], ◌∷◌, ◌++◌, none, some,
  Result, ok, err, arith, length,
}
use rust_node.Base.Assoc.{lookup, insert, remove}
use rust_node.Network.{
  new_peer_id, PeerInfo, NodeInfo, Bytes, NetworkMessage, NetworkMessagePayloadItem, NetworkError,
  message_error, waits_for_ever,
}
use rust_node.Connections.{
  Quinn, get_idle_stream, set_connection, is_connected as is_state_connected, get_send_stream,
  get_or_create_peer, get_peer, is_peer_connected, set_node_info,
}
use rust_node.Transport.Frames.{
  Read, chunk, closed, failed, frame, read_head, read_body, receive_body, receive_bytes,
}
use rust_node.Transport.Frames.Laws.{
  InOrder, GivesAtMost, receive_bytes-returns, receive_bytes-frame,
}
use rust_node.Transport.Quic.{
  established, Crates, QuicTransport, new, start, stop, is_connected, send_message,
}
use rust_node.Transport.Connecting.{
  try_addresses, connect_inner, handshake_peer, connect_peer, process_incoming_message,
  handle_new_connection,
}
use rust_node.Transport.Reachable.{
  Reach, here, next, starts, connect_peer-returns, connect_peer-is_connected,
}
use rust_node.Transport.Incoming.{handle_new_connection-handshake, connect_inner-restart}

-- A stream that gives one byte at a time.
abbrev one_byte : ℕ → Bytes → Read × Bytes
one_byte n [] = (closed, [])
one_byte zero (b ∷ bs) = (chunk [], b ∷ bs)
one_byte (suc n) (b ∷ bs) = (chunk (b ∷ []), bs)

one_byte-at_end : (n : ℕ) (s : Bytes) → s ≡ [] → (one_byte n s).0 ≡ closed
one_byte-at_end n [] h = refl
one_byte-at_end n (b ∷ bs) h = cc h

abbrev count : Read → ℕ
count (chunk bs) = length bs
count closed = 0
count (failed text) = 0

one_byte-GivesAtMost : GivesAtMost one_byte
one_byte-GivesAtMost n [] bs e = cc e
one_byte-GivesAtMost zero (b ∷ s) bs e = omega (arith, ap count e)
one_byte-GivesAtMost (suc n) (b ∷ s) bs e = omega (arith, ap count e)

abbrev in_order : InOrder one_byte
in_order = record { left = λ bs. bs; at_end = one_byte-at_end; gives = gives }
  where
    gives :
        (n : ℕ) (s : Bytes)
        → 0 < n
        → s ≢ []
        → (b : ℕ) × (bs : Bytes) × ((one_byte n s).0 ≡ chunk (b ∷ bs))
          × (length bs < n)
          × (s ≡ b ∷ (bs ++ (one_byte n s).1))
    gives n [] h k = absurd (k refl)
    gives zero (b ∷ bs) h k = absurd (omega (arith, h))
    gives (suc n) (b ∷ bs) h k = (b, [], refl, h, refl)

runs : Unit {0}
unfolding lookup insert remove get_idle_stream set_connection is_state_connected get_send_stream
    get_or_create_peer get_peer is_peer_connected set_node_info read_head read_body receive_body
    receive_bytes start stop is_connected send_message try_addresses connect_inner handshake_peer
    connect_peer process_incoming_message handle_new_connection
runs = tt

-- The length announces one byte more than there is.
incomplete :
    receive_bytes one_byte (0 ∷ 0 ∷ 0 ∷ 2 ∷ 7 ∷ [])
    ≡ some (err (message_error "Incomplete message: "))
unfolding runs
incomplete = refl

receive_bytes-frame_example : receive_bytes one_byte (frame (5 ∷ 6 ∷ [])) ≡ some (ok (5 ∷ 6 ∷ []))
receive_bytes-frame_example =
    receive_bytes-frame in_order (5 ∷ 6 ∷ []) (frame (5 ∷ 6 ∷ [])) (omega arith) refl

receive_bytes-returns_example :
    (outcome : Result Bytes NetworkError) × (receive_bytes one_byte (0 ∷ 0 ∷ 0 ∷ 2 ∷ 7 ∷ [])
      ≡ some outcome)
receive_bytes-returns_example =
    receive_bytes-returns one_byte one_byte-GivesAtMost (0 ∷ 0 ∷ 0 ∷ 2 ∷ 7 ∷ [])

-- The state of the network counts the writes.
abbrev counting : Quinn
counting = record {
  World = ℕ;
  Connection = String;
  SendStream = ℕ;
  open_uni = λ c w. (ok w, w);
  close = λ c w. w;
}

abbrev far : NodeInfo String
far = record {
  peer_id = new_peer_id "b";
  network_ids = [];
  addresses = [];
  services = [];
  version = 1;
}

abbrev crates : Crates counting String
crates = record {
  Endpoint = Bool;
  SocketAddr = String;
  create_quinn_configs = ok tt;
  server = λ w. (ok true, w);
  close = λ e w. w;
  connect = λ e a w. (established a, w);
  write_all = λ s b w. (ok tt, w + 1);
  finish = λ s w. (ok tt, w);
  parse = λ a. ok a;
  serialize_message = λ m. ok [];
  deserialize_message = λ b. err "";
  serialize_node = λ i. ok [];
  deserialize_node = λ b. ok far;
}

abbrev node : NodeInfo String
node = record {
  peer_id = new_peer_id "a";
  network_ids = [];
  addresses = [];
  services = [];
  version = 0;
}

abbrev fresh : QuicTransport crates
fresh = new crates node 100 0

abbrev running : QuicTransport crates
running = (start crates fresh).1

abbrev peer : PeerInfo
peer = record { public_key = "b"; addresses = "1.2.3.4:5" ∷ [] }

abbrev joined : QuicTransport crates
joined = (connect_peer crates 3 "h" peer running).1

-- The handshake is two writes.
joined_world : joined.world ≡ 2
unfolding runs
joined_world = refl

reaches_running : Reach crates fresh running
reaches_running = next here starts

connect_peer-returns_example : (connect_peer crates 3 "h" peer running).0 ≢ err waits_for_ever
connect_peer-returns_example =
    connect_peer-returns crates node 100 0 running 3 "h" peer reaches_running

connect_peer-ok : (connect_peer crates 3 "h" peer running).0 ≡ ok tt
unfolding runs
connect_peer-ok = refl

connect_peer-is_connected_example : is_connected crates (new_peer_id "b") joined ≡ true
connect_peer-is_connected_example =
    connect_peer-is_connected crates node 100 0 running 3 "h" peer reaches_running connect_peer-ok

abbrev payload : NetworkMessagePayloadItem
payload = record { path = ""; value_bytes = []; correlation_id = "h" }

abbrev handshake : NetworkMessage
handshake = record {
  source = new_peer_id "b";
  destination = new_peer_id "a";
  message_type = "NODE_INFO_HANDSHAKE";
  payloads = payload ∷ [];
}

unknown : get_peer (new_peer_id "b") running.connection_pool ≡ none
unfolding runs
unknown = refl

joined_running : joined.running ≡ true
unfolding runs
joined_running = refl

restarted : (start crates (stop crates joined).1).0 ≡ ok tt
unfolding runs
restarted = refl

abbrev accepted : QuicTransport crates
accepted = handle_new_connection crates 3 "1.2.3.4:5" "c" running

handle_new_connection-handshake_example :
    (process_incoming_message crates handshake accepted
      ≡ (ok tt, record accepted { published = accepted.published ++ far ∷ [] }))
    × (is_connected crates (new_peer_id "b") accepted ≡ false)
handle_new_connection-handshake_example =
    handle_new_connection-handshake crates 3 "1.2.3.4:5" "c" running handshake payload far unknown
      refl refl refl refl

connect_inner-restart_example :
    connect_inner crates 4 peer (start crates (stop crates joined).1).1
    ≡ (ok tt, (start crates (stop crates joined).1).1)
connect_inner-restart_example =
    connect_inner-restart crates 4 peer joined joined_running connect_peer-is_connected_example refl
      restarted
