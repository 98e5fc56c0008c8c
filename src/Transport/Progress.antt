-- ===== src/Transport/Progress.antt =====
-- Connecting to a peer ends, and what it leaves behind.
use rust_node.Base.{
  ℕ, String, eq_refl, ◌≡◌, ◌≢◌, refl, ap, sym, subst, true, false, List, [], ◌∷◌, Option, none,
  some, is_some, Result, ok, err, Result-cases, Option-cases, Bool-cases, inl, inr,
}
use rust_node.Base.Assoc.{lookup, lookup-insert}
use rust_node.Network.{
  PeerId, new_peer_id, PeerInfo, NetworkError, connection_error, waits_for_ever,
}
use rust_node.Trie.Removal.{is_nil}
use rust_node.Connections.{
  Quinn, PeerState, ConnectionPool, set_connection, get_or_create_peer, is_peer_connected,
}
use rust_node.Transport.Sending.{link}
use rust_node.Transport.Ready.{IsFree, IsReady, IsReady-insert, get_or_create_peer-IsReady}
use rust_node.Transport.Quic.{
  Crates, QuicTransport, Attempt, established, not_initiated, not_established,
}
use rust_node.Transport.Connecting.{
  establish, attempted, try_addresses, or_failed, connect_from, connect_inner,
}

not_some : {A : Type 0} (o : Option A) → is_some o ≡ false → o ≡ none
not_some none h = refl
not_some (some a) h = cc

-- The last error is not the wait for a status.
abbrev IsPlain : Option NetworkError → Type 0
IsPlain last = or_failed last ≢ waits_for_ever

module _ {q : Quinn} {Service : Type 0} where
  get_or_create_peer-unconnected :
      (now : ℕ) (id : PeerId) (address : String) (limit : ℕ) (pool : ConnectionPool q Service)
      → is_peer_connected id pool ≡ false
      → (get_or_create_peer now id address limit pool).0.connection ≡ none
  unfolding get_or_create_peer is_peer_connected
  get_or_create_peer-unconnected now id address limit pool h =
      elim (Option-cases (lookup id.public_key pool)) [
        | inl e ↦ rw e refl
        | inr (s, e) ↦ rw e (not_some s.connection (rw e at h))
      ]

  set_connection-free :
      (now : ℕ) (c : q.Connection) (s : PeerState q Service)
      → s.statuses ≡ []
      → ((set_connection now c s).0 ≡ ok tt)
        × (link (set_connection now c s).1 ≡ (some c, true ∷ []))
  unfolding set_connection
  set_connection-free now c s h = simp h (refl, refl)

module _ {q : Quinn} {Service : Type 0} (crates : Crates q Service) where
  -- What an attempt to connect to a peer may give: the peer connected, or an error that is not the
  -- wait for a status.
  abbrev pub Returns : PeerId → Result (Unit {0}) NetworkError × QuicTransport crates → Type 0
  Returns id (ok u, t) = IsReady t.connection_pool × (is_peer_connected id t.connection_pool ≡ true)
  Returns id (err e, t) = IsReady t.connection_pool × (e ≢ waits_for_ever)

  establish-result :
      (now : ℕ) (id : PeerId) (address : String) (c : q.Connection) (t : QuicTransport crates)
      → IsReady t.connection_pool
      → is_peer_connected id t.connection_pool ≡ false
      → Returns id (establish crates now id address c t)
  unfolding is_peer_connected
  establish-result now id address c t ready h =
      let limit = t.max_idle_streams_per_peer in
      let s = (get_or_create_peer now id address limit t.connection_pool).0 in
      let pool = (get_or_create_peer now id address limit t.connection_pool).1 in
      let (free, kept) = get_or_create_peer-IsReady now id address limit t.connection_pool ready in
      let (succeeds, linked) =
        set_connection-free now c s
          (free (get_or_create_peer-unconnected now id address limit t.connection_pool h)) in
      let s' = (set_connection now c s).1 in
      simp succeeds (
        IsReady-insert id.public_key s' pool (subst IsFree (sym linked) (λ n. cc n)) kept,
        rw (lookup-insert id.public_key id.public_key s' pool, eq_refl id.public_key)
            (ap is_some (ap (λ l. l.0) linked)),
      )

  attempted-Returns :
      (now : ℕ) (id : PeerId) (address : String)
      (next : Option NetworkError
        → QuicTransport crates
        → Result (Unit {0}) NetworkError × QuicTransport crates)
      (attempt : Attempt q.Connection × q.World) (t : QuicTransport crates)
      → IsReady t.connection_pool
      → is_peer_connected id t.connection_pool ≡ false
      → ((text : String) (t' : QuicTransport crates)
          → t'.connection_pool ≡ t.connection_pool
          → Returns id (next (some (connection_error text)) t'))
      → Returns id (attempted crates now id address next attempt t)
  attempted-Returns now id address next (established c, world) t ready h continues =
      establish-result now id address c (record t { world = world }) ready h
  attempted-Returns now id address next (not_initiated text, world) t ready h continues =
      continues _ _ refl
  attempted-Returns now id address next (not_established text, world) t ready h continues =
      continues _ _ refl

  try_addresses-Returns :
      (now : ℕ) (id : PeerId) (endpoint : crates.Endpoint) (addresses : List String)
      (last : Option NetworkError) (t : QuicTransport crates)
      → IsPlain last
      → IsReady t.connection_pool
      → is_peer_connected id t.connection_pool ≡ false
      → Returns id (try_addresses crates now id endpoint addresses last t)
  unfolding try_addresses
  try_addresses-Returns now id endpoint [] last t plain ready h = (ready, plain)
  try_addresses-Returns now id endpoint (address ∷ addresses) last t plain ready h =
      let next : (last' : Option NetworkError) (t' : QuicTransport crates)
          → IsPlain last'
          → t'.connection_pool ≡ t.connection_pool
          → Returns id (try_addresses crates now id endpoint addresses last' t') =
        λ last' t' plain' same.
          try_addresses-Returns now id endpoint addresses last' t' plain'
            (subst IsReady (sym same) ready) (rw same h) in
      elim (Result-cases (crates.parse address)) [
        | inl (socket_addr, e) ↦ rw e (
            attempted-Returns now id address (try_addresses crates now id endpoint addresses)
              (crates.connect endpoint socket_addr t.world) t ready h
              (λ text t' same. next (some (connection_error text)) t' (λ k. cc k) same))
        | inr (text, e) ↦
            rw e (next (some (connection_error "Invalid address ")) t (λ k. cc k) refl)
      ]

  connect_from-Returns :
      (now : ℕ) (id : PeerId) (addresses : List String) (endpoint : Option crates.Endpoint)
      (t : QuicTransport crates)
      → IsReady t.connection_pool
      → is_peer_connected id t.connection_pool ≡ false
      → Returns id (connect_from crates now id addresses endpoint t)
  connect_from-Returns now id addresses none t ready h = (ready, λ k. cc k)
  connect_from-Returns now id addresses (some endpoint) t ready h =
      try_addresses-Returns now id endpoint addresses none t (λ k. cc k) ready h

  -- Connecting to a peer ends with the peer connected, or with an error that says why it is not,
  -- whichever addresses parse and answer.
  pub connect_inner-Returns :
      (now : ℕ) (info : PeerInfo) (t : QuicTransport crates)
      → IsReady t.connection_pool
      → Returns (new_peer_id info.public_key) (connect_inner crates now info t)
  unfolding connect_inner
  connect_inner-Returns now info t ready = elim (Bool-cases t.running) [
    | inl r ↦ elim (Bool-cases (is_nil info.addresses)) [
      | inl n ↦ simp (r, n) (ready, λ k. cc k)
      | inr n ↦
          elim (Bool-cases (is_peer_connected (new_peer_id info.public_key) t.connection_pool)) [
            | inl c ↦ simp (r, n, c) (ready, refl)
            | inr c ↦
                simp (r, n, c)
                  (connect_from-Returns now (new_peer_id info.public_key) info.addresses t.endpoint
                    t ready c)
          ]
    ]
    | inr r ↦ simp r (ready, λ k. cc k)
  ]
