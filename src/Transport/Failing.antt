-- ===== src/Transport/Failing.antt =====
-- No error of sending is the wait for a status.
use rust_node.Base.{String, ◌≢◌, Option, none, some, Result, ok, err, Bool-cases, inl, inr}
use rust_node.Base.Calls.{lift}
use rust_node.Base.Calls.Laws.{after-avoids}
use rust_node.Network.{PeerInfo, new_peer_id, NetworkMessage, waits_for_ever}
use rust_node.Connections.{
  Quinn, StreamPool, PeerState, opened, open_stream, stream_from, get_send_stream, get_idle_stream,
  get_peer, is_connected, is_peer_connected,
}
use rust_node.Transport.Frames.{length_prefix}
use rust_node.Transport.Quic.{
  Crates, QuicTransport, or_message_error, on_stream, write_message, take_stream, send_to,
  send_message,
}
use rust_node.Transport.Connecting.{handshake_peer, node_message}

or_message_error-avoids :
    {A : Type 0} (text : String) (r : Result A String)
    → or_message_error text r ≢ err waits_for_ever
or_message_error-avoids text (ok a) h = cc h
or_message_error-avoids text (err e) h = cc h

opened-avoids : {A : Type 0} (r : Result A String) → opened r ≢ err waits_for_ever
opened-avoids (ok a) h = cc h
opened-avoids (err e) h = cc h

open_stream-avoids :
    (q : Quinn) (c : Option q.Connection) (world : q.World)
    → (open_stream q c world).0 ≢ err waits_for_ever
open_stream-avoids q none world h = cc h
open_stream-avoids q (some c) world h = opened-avoids (q.open_uni c world).0 h

module _ {q : Quinn} {Service : Type 0} where
  stream_from-avoids :
      (found : Option q.SendStream × StreamPool q.SendStream) (s : PeerState q Service)
      (world : q.World)
      → (stream_from found s world).0 ≢ err waits_for_ever
  stream_from-avoids (some stream, pool) s world h = cc h
  stream_from-avoids (none, pool) s world h = open_stream-avoids q s.connection world h

  get_send_stream-avoids :
      (s : PeerState q Service) (world : q.World) → (get_send_stream s world).0 ≢ err waits_for_ever
  unfolding get_send_stream
  get_send_stream-avoids s world = stream_from-avoids (get_idle_stream s.stream_pool) s world

module _ {q : Quinn} {Service : Type 0} (crates : Crates q Service) where
  on_stream-avoids :
      (text : String) (write : q.World → Result (Unit {0}) String × q.World)
      (t : QuicTransport crates)
      → (on_stream crates text write t).0 ≢ err waits_for_ever
  on_stream-avoids text write t = or_message_error-avoids text (write t.world).0

  write_message-avoids :
      (message : NetworkMessage) (stream : q.SendStream) (t : QuicTransport crates)
      → (write_message crates message stream t).0 ≢ err waits_for_ever
  write_message-avoids message stream t =
      after-avoids _
        (lift (or_message_error "Failed to serialize message: " (crates.serialize_message message))
          t)
        waits_for_ever (or_message_error-avoids _ (crates.serialize_message message))
        (λ body t'.
          after-avoids _ _ waits_for_ever
            (after-avoids _ _ waits_for_ever
              (on_stream-avoids _ (crates.write_all stream (length_prefix body)) t')
              (λ u t'. on_stream-avoids _ (crates.write_all stream body) t'))
            (λ u t'. on_stream-avoids _ (crates.finish stream) t'))

  send_to-avoids :
      (message : NetworkMessage) (found : Option (PeerState q Service)) (t : QuicTransport crates)
      → (send_to crates message found t).0 ≢ err waits_for_ever
  send_to-avoids message none t = λ h. cc h
  send_to-avoids message (some s) t = elim (Bool-cases (is_connected s)) [
    | inl e ↦ rw e (
        after-avoids (write_message crates message) (take_stream crates message.destination s t)
          waits_for_ever (get_send_stream-avoids s t.world)
          (λ stream t'. write_message-avoids message stream t'))
    | inr e ↦ rw e (λ h. cc h)
  ]

  pub send_message-avoids :
      (message : NetworkMessage) (t : QuicTransport crates)
      → (send_message crates message t).0 ≢ err waits_for_ever
  unfolding send_message
  send_message-avoids message t = elim (Bool-cases t.running) [
    | inl e ↦ simp e (send_to-avoids message (get_peer message.destination t.connection_pool) t)
    | inr e ↦ simp e (λ h. cc h)
  ]

  pub handshake_peer-avoids :
      (correlation_id : String) (info : PeerInfo) (t : QuicTransport crates)
      → (handshake_peer crates correlation_id info t).0 ≢ err waits_for_ever
  unfolding handshake_peer
  handshake_peer-avoids correlation_id info t = elim (Bool-cases t.running) [
    | inl r ↦
        elim (Bool-cases (is_peer_connected (new_peer_id info.public_key) t.connection_pool)) [
          | inl c ↦
              simp (r, c)
                (after-avoids _
                  (lift
                    (or_message_error "Failed to serialize node info: "
                      (crates.serialize_node t.local_node))
                    t)
                  waits_for_ever (or_message_error-avoids _ (crates.serialize_node t.local_node))
                  (λ body t'.
                    send_message-avoids
                      (node_message t.node_id (new_peer_id info.public_key) "NODE_INFO_HANDSHAKE" ""
                        body correlation_id)
                      t'))
          | inr c ↦ simp (r, c) (λ h. cc h)
        ]
    | inr r ↦ simp r (λ h. cc h)
  ]
