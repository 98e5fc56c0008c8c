-- ===== src/Transport/Incoming.antt =====
-- What the transport makes of a peer that connects by itself, and of the peers after a restart.
use rust_node.Base.{
  ℕ, String, str_eq, ◌≡◌, refl, ap, ◌∙◌, true, false, [], ◌∷◌, ◌++◌, none, Result, ok, err,
  Option-cases, Bool-cases, inl, inr,
}
use rust_node.Text.{◌⧺◌}
use rust_node.Trie.Removal.{is_nil}
use rust_node.Base.Assoc.{lookup, lookup-insert}
use rust_node.Base.Calls.{after, lift}
use rust_node.Network.{
  PeerId, new_peer_id, PeerInfo, NodeInfo, NetworkMessage, NetworkMessagePayloadItem, NetworkError,
}
use rust_node.Connections.{
  Quinn, ConnectionPool, new_state, get_or_create_peer, get_peer, is_peer_connected,
}
use rust_node.Transport.Quic.{Crates, QuicTransport, start, bound, stop, is_connected}
use rust_node.Transport.Connecting.{connect_inner, process_incoming_message, handle_new_connection}

module _ {q : Quinn} {Service : Type 0} where
  get_or_create_peer-other :
      (now : ℕ) (id : PeerId) (address : String) (limit : ℕ) (pool : ConnectionPool q Service)
      (k : String)
      → str_eq id.public_key k ≡ false
      → lookup k (get_or_create_peer now id address limit pool).1 ≡ lookup k pool
  unfolding get_or_create_peer
  get_or_create_peer-other now id address limit pool k h =
      elim (Option-cases (lookup id.public_key pool)) [
        | inl e ↦
            rw (e, lookup-insert id.public_key k (new_state now id address limit) pool, h) refl
        | inr (s, e) ↦ rw e refl
      ]

module _ {q : Quinn} {Service : Type 0} (crates : Crates q Service) where
  handle_new_connection-other :
      (now : ℕ) (address : String) (c : q.Connection) (t : QuicTransport crates) (k : String)
      → str_eq ("temp-" ⧺ address) k ≡ false
      → lookup k (handle_new_connection crates now address c t).connection_pool
        ≡ lookup k t.connection_pool
  unfolding handle_new_connection
  handle_new_connection-other now address c t k h =
      lookup-insert ("temp-" ⧺ address) k _ _
      ∙ rw h (
          get_or_create_peer-other now (new_peer_id ("temp-" ⧺ address)) address
            t.max_idle_streams_per_peer t.connection_pool k h)

  -- A peer connects and sends a handshake under its own id, where the transport has no state for
  -- that id: the node info is passed on, but no answer is sent, and the peer does not count as
  -- connected.
  pub handle_new_connection-handshake :
      (now : ℕ) (address : String) (c : q.Connection) (t : QuicTransport crates)
      (message : NetworkMessage) (payload : NetworkMessagePayloadItem) (info : NodeInfo Service)
      → get_peer message.source t.connection_pool ≡ none
      → str_eq ("temp-" ⧺ address) message.source.public_key ≡ false
      → message.message_type ≡ "NODE_INFO_HANDSHAKE"
      → message.payloads ≡ payload ∷ []
      → crates.deserialize_node payload.value_bytes ≡ ok info
      → let later = handle_new_connection crates now address c t in
        (process_incoming_message crates message later
          ≡ (ok tt, record later { published = later.published ++ info ∷ [] }))
        × (is_connected crates message.source later ≡ false)
  unfolding process_incoming_message get_peer is_connected is_peer_connected
  handle_new_connection-handshake now address c t message payload info unknown other kind only h =
      let later = handle_new_connection crates now address c t in
      let absent : lookup message.source.public_key later.connection_pool ≡ none =
        handle_new_connection-other now address c t message.source.public_key other ∙ unknown in
      (simp (kind, only, h, absent) refl, simp absent refl)

  -- A transport that has started is running, with the peers that it had.
  abbrev IsStarted : QuicTransport crates → QuicTransport crates → Type 0
  IsStarted t u = (u.connection_pool ≡ t.connection_pool) × (u.running ≡ true)

  bound-running :
      (t : QuicTransport crates) (b : Result crates.Endpoint String × q.World)
      → (bound crates b t).0 ≡ ok tt
      → IsStarted t (bound crates b t).1
  bound-running t (ok endpoint, world) h = (refl, refl)
  bound-running t (err text, world) h = absurd (cc h)

  configured-running :
      (t : QuicTransport crates) (configs : Result (Unit {0}) NetworkError)
      → (after (λ _. bound crates (crates.server t.world)) (lift configs t)).0 ≡ ok tt
      → IsStarted t (after (λ _. bound crates (crates.server t.world)) (lift configs t)).1
  configured-running t (ok u) h = bound-running t (crates.server t.world) h
  configured-running t (err e) h = absurd (cc h)

  start-running :
      (t : QuicTransport crates) → (start crates t).0 ≡ ok tt → IsStarted t (start crates t).1
  unfolding start
  start-running t h = elim (Bool-cases t.running) [
    | inl r ↦ simp r (refl, refl)
    | inr r ↦ simp r (configured-running t crates.create_quinn_configs (simp r at h))
  ]

  stop-pool : (t : QuicTransport crates) → (stop crates t).1.connection_pool ≡ t.connection_pool
  unfolding stop
  stop-pool t = elim (Bool-cases t.running) [ inl r ↦ simp r refl | inr r ↦ simp r refl ]

  connect_inner-connected :
      (now : ℕ) (info : PeerInfo) (t : QuicTransport crates)
      → t.running ≡ true
      → is_nil info.addresses ≡ false
      → is_peer_connected (new_peer_id info.public_key) t.connection_pool ≡ true
      → connect_inner crates now info t ≡ (ok tt, t)
  unfolding connect_inner
  connect_inner-connected now info t r n c = simp (r, n, c) refl

  -- A peer that was connected when the transport stopped still counts as connected after the next
  -- start, and connecting to it succeeds without doing anything.
  pub connect_inner-restart :
      (now : ℕ) (info : PeerInfo) (t : QuicTransport crates)
      → t.running ≡ true
      → is_connected crates (new_peer_id info.public_key) t ≡ true
      → is_nil info.addresses ≡ false
      → (start crates (stop crates t).1).0 ≡ ok tt
      → connect_inner crates now info (start crates (stop crates t).1).1
        ≡ (ok tt, (start crates (stop crates t).1).1)
  unfolding is_connected
  connect_inner-restart now info t r c n started =
      let (same, running) = start-running (stop crates t).1 started in
      connect_inner-connected now info (start crates (stop crates t).1).1 running n
        (ap (is_peer_connected (new_peer_id info.public_key)) (same ∙ stop-pool t) ∙ c)
