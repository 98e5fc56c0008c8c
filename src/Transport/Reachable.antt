-- ===== src/Transport/Reachable.antt =====
-- Every state that the transport's operations lead to is one in which connecting to a peer returns.
use rust_node.Base.{
  ℕ, String, ◌≡◌, ◌≢◌, refl, ap, sym, ◌∙◌, subst, Bool, true, false, List, Option, none, some,
  is_some, Result, ok, err, Option-cases, Bool-cases, inl, inr,
}
use rust_node.Base.Assoc.{lookup}
use rust_node.Text.{◌⧺◌}
use rust_node.Base.Calls.{after, lift}
use rust_node.Base.Calls.Laws.{after-avoids}
use rust_node.Network.{
  PeerId, new_peer_id, PeerInfo, NodeInfo, NetworkMessage, NetworkError, waits_for_ever,
}
use rust_node.Connections.{Quinn, ConnectionPool, connected, is_peer_connected, get_connected_peers}
use rust_node.Transport.Sending.{links, send_message-links}
use rust_node.Transport.Ready.{
  IsReady, IsReady-links, IsReady-insert, IsReady-remove_peer, get_or_create_peer-IsReady,
}
use rust_node.Transport.Progress.{Returns, connect_inner-Returns}
use rust_node.Transport.Untouched.{
  handshake_peer-links, send_updates-links, process_incoming_message-links,
}
use rust_node.Transport.Failing.{handshake_peer-avoids}
use rust_node.Transport.Quic.{
  Crates, QuicTransport, new, start, bound, stop, disconnect, is_connected, send_message,
}
use rust_node.Transport.Connecting.{
  connect_inner, handshake_peer, connect_peer, update_peers, process_incoming_message,
  handle_new_connection,
}

module _ {q : Quinn} {Service : Type 0} (crates : Crates q Service) where
  -- One operation on the transport.
  pub data Step (t : QuicTransport crates) : QuicTransport crates → Type 0 where
    starts : Step t (start crates t).1
    stops : Step t (stop crates t).1
    disconnects : (id : PeerId) → Step t (disconnect crates id t).1
    sends : (message : NetworkMessage) → Step t (send_message crates message t).1
    connects :
        (now : ℕ) (correlation_id : String) (info : PeerInfo)
        → Step t (connect_peer crates now correlation_id info t).1
    updates : (info : NodeInfo Service) → Step t (update_peers crates info t).1
    processes : (message : NetworkMessage) → Step t (process_incoming_message crates message t).1
    accepts :
        (now : ℕ) (address : String) (c : q.Connection)
        → Step t (handle_new_connection crates now address c t)

  pub data Reach (t : QuicTransport crates) : QuicTransport crates → Type 0 where
    here : Reach t t
    next : {u v : QuicTransport crates} → Reach t u → Step u v → Reach t v

  -- Every peer without a connection has no status waiting.
  abbrev pub IsReadyTransport : QuicTransport crates → Type 0
  IsReadyTransport t = IsReady t.connection_pool

  connect_peer-ready :
      (now : ℕ) (correlation_id : String) (info : PeerInfo) (t : QuicTransport crates)
      (r : Result (Unit {0}) NetworkError × QuicTransport crates)
      → Returns crates (new_peer_id info.public_key) r
      → IsReadyTransport (after (λ _. handshake_peer crates correlation_id info) r).1
  connect_peer-ready now correlation_id info t (err e, t') (ready, plain) = ready
  connect_peer-ready now correlation_id info t (ok u, t') (ready, c) =
      IsReady-links t'.connection_pool _ (handshake_peer-links crates correlation_id info t') ready

  start-ready :
      (t : QuicTransport crates) → IsReadyTransport t → IsReadyTransport (start crates t).1
  unfolding start
  start-ready t ready = elim (Bool-cases t.running) [
    | inl r ↦ simp r ready
    | inr r ↦ simp r (subst IsReady (sym (bind crates.create_quinn_configs)) ready)
  ]
    where
      bind_to :
          (b : Result crates.Endpoint String × q.World)
          → (bound crates b t).1.connection_pool ≡ t.connection_pool
      bind_to (ok endpoint, world) = refl
      bind_to (err text, world) = refl

      bind :
          (configs : Result (Unit {0}) NetworkError)
          → (after (λ _. bound crates (crates.server t.world)) (lift configs t)).1.connection_pool
            ≡ t.connection_pool
      bind (err e) = refl
      bind (ok u) = bind_to (crates.server t.world)

  stop-ready : (t : QuicTransport crates) → IsReadyTransport t → IsReadyTransport (stop crates t).1
  unfolding stop
  stop-ready t ready = elim (Bool-cases t.running) [ inl r ↦ simp r ready | inr r ↦ simp r ready ]

  disconnect-ready :
      (id : PeerId) (t : QuicTransport crates)
      → IsReadyTransport t
      → IsReadyTransport (disconnect crates id t).1
  unfolding disconnect
  disconnect-ready id t ready = elim (Bool-cases t.running) [
    | inl r ↦ simp r (IsReady-remove_peer id t.connection_pool ready)
    | inr r ↦ simp r ready
  ]

  Step-ready : {t u : QuicTransport crates} → Step t u → IsReadyTransport t → IsReadyTransport u
  unfolding update_peers connect_peer handle_new_connection
  Step-ready {t} starts ready = start-ready t ready
  Step-ready {t} stops ready = stop-ready t ready
  Step-ready {t} (disconnects id) ready = disconnect-ready id t ready
  Step-ready {t} (sends message) ready =
      IsReady-links t.connection_pool _ (send_message-links crates message t) ready
  Step-ready {t} (connects now correlation_id info) ready =
      connect_peer-ready now correlation_id info t (connect_inner crates now info t)
        (connect_inner-Returns crates now info t ready)
  Step-ready {t} (updates info) ready =
      IsReady-links t.connection_pool _
        (send_updates-links crates info (get_connected_peers t.connection_pool) t) ready
  Step-ready {t} (processes message) ready =
      IsReady-links t.connection_pool _ (process_incoming_message-links crates message t) ready
  Step-ready {t} (accepts now address c) ready =
      let id = new_peer_id ("temp-" ⧺ address) in
      IsReady-insert id.public_key _ _ (λ n. cc n)
        (get_or_create_peer-IsReady now id address t.max_idle_streams_per_peer t.connection_pool
          ready).1

  new-ready :
      (local : NodeInfo Service) (limit : ℕ) (world : q.World)
      → IsReadyTransport (new crates local limit world)
  unfolding IsReady lookup
  new-ready local limit world k l h = absurd (cc h)

  Reach-ready :
      (local : NodeInfo Service) (limit : ℕ) (world : q.World) (t : QuicTransport crates)
      → Reach (new crates local limit world) t
      → IsReadyTransport t
  Reach-ready local limit world t here = new-ready local limit world
  Reach-ready local limit world t (next reached step) =
      Step-ready step (Reach-ready local limit world _ reached)

  Returns-avoids :
      (id : PeerId) (r : Result (Unit {0}) NetworkError × QuicTransport crates)
      → Returns crates id r
      → r.0 ≢ err waits_for_ever
  Returns-avoids id (ok u, t) h = λ e. cc e
  Returns-avoids id (err failure, t) h = λ e. h.1 (cc e)

  is_peer_connected-links :
      (id : PeerId) (pool later : ConnectionPool q Service)
      → links id.public_key later ≡ links id.public_key pool
      → is_peer_connected id later ≡ is_peer_connected id pool
  unfolding is_peer_connected
  is_peer_connected-links id pool later h = from_link later ∙ ap linked h ∙ sym (from_link pool)
    where
      linked : Option (Option q.Connection × List Bool) → Bool
      linked none = false
      linked (some l) = is_some l.0

      from_link :
          (p : ConnectionPool q Service)
          → connected (lookup id.public_key p) ≡ linked (links id.public_key p)
      from_link p = elim (Option-cases (lookup id.public_key p)) [
        | inl e ↦ rw e refl
        | inr (s, e) ↦ rw e refl
      ]

  connected_after :
      (now : ℕ) (correlation_id : String) (info : PeerInfo)
      (r : Result (Unit {0}) NetworkError × QuicTransport crates)
      → Returns crates (new_peer_id info.public_key) r
      → (after (λ _. handshake_peer crates correlation_id info) r).0 ≡ ok tt
      → is_peer_connected
          (new_peer_id info.public_key)
          (after (λ _. handshake_peer crates correlation_id info) r).1.connection_pool
        ≡ true
  connected_after now correlation_id info (err e, t) h k = cc k
  connected_after now correlation_id info (ok u, t) h k =
      is_peer_connected-links (new_peer_id info.public_key) t.connection_pool _
        (handshake_peer-links crates correlation_id info t info.public_key)
      ∙ h.1

  -- In every state that the operations lead to from a new transport, connecting to a peer returns:
  -- it does not wait for ever on the channel of statuses.
  pub connect_peer-returns :
      (local : NodeInfo Service) (limit : ℕ) (world : q.World) (t : QuicTransport crates) (now : ℕ)
      (correlation_id : String) (info : PeerInfo)
      → Reach (new crates local limit world) t
      → (connect_peer crates now correlation_id info t).0 ≢ err waits_for_ever
  unfolding connect_peer
  connect_peer-returns local limit world t now correlation_id info reached =
      after-avoids (λ _. handshake_peer crates correlation_id info)
        (connect_inner crates now info t) waits_for_ever
        (Returns-avoids (new_peer_id info.public_key) (connect_inner crates now info t)
          (connect_inner-Returns crates now info t (Reach-ready local limit world t reached)))
        (λ u t'. handshake_peer-avoids crates correlation_id info t')

  -- In every state that the operations lead to from a new transport, a peer is connected after
  -- connecting to it has succeeded.
  pub connect_peer-is_connected :
      (local : NodeInfo Service) (limit : ℕ) (world : q.World) (t : QuicTransport crates) (now : ℕ)
      (correlation_id : String) (info : PeerInfo)
      → Reach (new crates local limit world) t
      → (connect_peer crates now correlation_id info t).0 ≡ ok tt
      → is_connected crates
          (new_peer_id info.public_key)
          (connect_peer crates now correlation_id info t).1
        ≡ true
  unfolding connect_peer is_connected
  connect_peer-is_connected local limit world t now correlation_id info reached =
      connected_after now correlation_id info (connect_inner crates now info t)
        (connect_inner-Returns crates now info t (Reach-ready local limit world t reached))
