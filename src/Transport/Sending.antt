-- ===== src/Transport/Sending.antt =====
-- Sending a message leaves the connections and the statuses of all peers alone.
use rust_node.Base.{
  String, str_eq, eq_iff, ◌≡◌, refl, Bool, List, Option, none, some, Bool-cases, inl, inr,
}
use mathlib.Core.Option
use rust_node.Base.Assoc.{lookup, insert, lookup-insert}
use rust_node.Base.Calls.{lift}
use rust_node.Base.Calls.Laws.{after-keeps}
use rust_node.Network.{PeerId, NetworkMessage}
use rust_node.Connections.{
  Quinn, StreamPool, PeerState, ConnectionPool, get_idle_stream, stream_from, get_send_stream,
  get_peer, is_connected,
}
use rust_node.Transport.Frames.{length_prefix}
use rust_node.Transport.Quic.{
  Crates, QuicTransport, take_stream, write_message, send_to, send_message, or_message_error,
  on_stream,
}

module _ {q : Quinn} {Service : Type 0} where
  -- What a state says of the connection.
  abbrev pub link : PeerState q Service → Option q.Connection × List Bool
  link s = (s.connection, s.statuses)

  abbrev pub links : String → ConnectionPool q Service → Option (Option q.Connection × List Bool)
  links key pool = Option.map link (lookup key pool)

  stream_from-link :
      (found : Option q.SendStream × StreamPool q.SendStream) (s : PeerState q Service)
      (world : q.World)
      → link (stream_from found s world).1 ≡ link s
  stream_from-link (some stream, pool) s world = refl
  stream_from-link (none, pool) s world = refl

  pub get_send_stream-link :
      (s : PeerState q Service) (world : q.World) → link (get_send_stream s world).1 ≡ link s
  unfolding get_send_stream
  get_send_stream-link s world = stream_from-link (get_idle_stream s.stream_pool) s world

  -- A state that is put back with the same link.
  pub links-insert :
      (key : String) (s s' : PeerState q Service) (pool : ConnectionPool q Service)
      → lookup key pool ≡ some s
      → link s' ≡ link s
      → (k : String) → links k (insert key s' pool) ≡ links k pool
  links-insert key s s' pool found same k = elim (Bool-cases (str_eq key k)) [
    | inl e ↦ rw (lookup-insert key k s' pool, e, ← (eq_iff key k).0 e, found, same) refl
    | inr e ↦ rw (lookup-insert key k s' pool, e) refl
  ]

module _ {q : Quinn} {Service : Type 0} (crates : Crates q Service) where
  abbrev pub peer_links : String → QuicTransport crates → Option (Option q.Connection × List Bool)
  peer_links k t = links k t.connection_pool

  take_stream-links :
      (id : PeerId) (s : PeerState q Service) (t : QuicTransport crates) (k : String)
      → get_peer id t.connection_pool ≡ some s
      → peer_links k (take_stream crates id s t).1 ≡ peer_links k t
  unfolding get_peer
  take_stream-links id s t k found =
      links-insert id.public_key s (get_send_stream s t.world).1 t.connection_pool found
        (get_send_stream-link s t.world) k

  write_message-links :
      (message : NetworkMessage) (stream : q.SendStream) (t : QuicTransport crates) (k : String)
      → peer_links k (write_message crates message stream t).1 ≡ peer_links k t
  write_message-links message stream t k =
      after-keeps (peer_links k) _
        (lift (or_message_error "Failed to serialize message: " (crates.serialize_message message))
          t)
        refl
        (λ body t'.
          after-keeps (peer_links k) _ _
            (after-keeps (peer_links k) _
              (on_stream crates "Failed to write message length: "
                (crates.write_all stream (length_prefix body)) t')
              refl (λ u t''. refl))
            (λ u t''. refl))

  send_to-links :
      (message : NetworkMessage) (found : Option (PeerState q Service)) (t : QuicTransport crates)
      (k : String)
      → get_peer message.destination t.connection_pool ≡ found
      → peer_links k (send_to crates message found t).1 ≡ peer_links k t
  send_to-links message none t k h = refl
  send_to-links message (some s) t k h = elim (Bool-cases (is_connected s)) [
    | inl e ↦ rw e (
        after-keeps (peer_links k) (write_message crates message)
          (take_stream crates message.destination s t)
          (take_stream-links message.destination s t k h)
          (λ stream t'. write_message-links message stream t' k))
    | inr e ↦ rw e refl
  ]

  pub send_message-links :
      (message : NetworkMessage) (t : QuicTransport crates) (k : String)
      → peer_links k (send_message crates message t).1 ≡ peer_links k t
  unfolding send_message
  send_message-links message t k = elim (Bool-cases t.running) [
    | inl e ↦
        simp e (send_to-links message (get_peer message.destination t.connection_pool) t k refl)
    | inr e ↦ simp e refl
  ]
