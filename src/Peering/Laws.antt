-- ===== src/Peering/Laws.antt =====
-- What an announcement of a peer leaves behind.
use rust_node.Base.{
  ℕ, ◌≤◌, String, str_eq, eq_iff, ◌≡◌, refl, ap, ◌∙◌, Bool, true, false, List, [], ◌∷◌, Option,
  none, some, Result, ok, err, Bool-cases, inl, inr, ltb, arith,
}
use rust_node.Base.Assoc.{lookup, lookup-insert, lookup-remove}
use rust_node.Base.Calls.{after, lift, modify}
use rust_node.Base.Calls.Laws.{after-keeps}
use rust_node.Network.{NodeInfo}
use rust_node.Topic
use rust_node.Topic.{TopicPath, TopicError, DefaultHasher, new_action_topic}
use rust_node.Trie.Removal.{is_nil}
use rust_node.Registry.{Vocabulary}
use rust_node.Peering.{
  Metadata, RemoteService, Services, PeeringError, create_from_capabilities,
  register_remote_service, remove_remote_service,
}
use rust_node.Peering.Known.{
  Peering, or_bad_topic, on_services, remove_peer_services, add_registered, add_services,
  add_new_peer, know, forget, process_known, process_remote_capabilities,
}

module _ ⦃hasher : DefaultHasher⦄ {m : Metadata} {v : Vocabulary} where
  abbrev known : Peering m v → List (String × NodeInfo m.ServiceMetadata)
  known p = p.known_peers

  remove_peer_services-known :
      (services : List m.ServiceMetadata) (p : Peering m v)
      → known (remove_peer_services services p).1 ≡ known p
  unfolding remove_peer_services
  remove_peer_services-known [] p = refl
  remove_peer_services-known (s ∷ rest) p =
      after-keeps known (λ _. remove_peer_services rest) _
        (after-keeps known (λ topic. on_services (remove_remote_service topic))
          (lift (or_bad_topic (Topic.new (m.service_path s) (m.network_id s))) p) refl
          (λ topic q. refl))
        (λ u q. remove_peer_services-known rest q)

  add_registered-known :
      (service : RemoteService m) (r : Result (Unit {0}) PeeringError × Services m v)
      (p : Peering m v)
      → known (add_registered service r p).1 ≡ known p
  add_registered-known service (err e, s) p = refl
  add_registered-known service (ok u, s) p =
      after-keeps known _
        (lift (or_bad_topic (Topic.new service.service_topic.path p.network_id))
          (record p { services = s }))
        refl (λ topic q. refl)

  add_services-known :
      (services : List (RemoteService m)) (p : Peering m v)
      → known (add_services services p).1 ≡ known p
  unfolding add_services
  add_services-known [] p = refl
  add_services-known (service ∷ rest) p =
      after-keeps known (λ _. add_services rest)
        (add_registered service (register_remote_service service p.services) p)
        (add_registered-known service (register_remote_service service p.services) p)
        (λ u q. add_services-known rest q)

  add_new_peer-known :
      (transport : Bool) (info : NodeInfo m.ServiceMetadata) (p : Peering m v)
      → known (add_new_peer transport info p).1 ≡ known p
  unfolding add_new_peer
  add_new_peer-known transport info p = elim (Bool-cases (is_nil info.services)) [
    | inl e ↦ rw e refl
    | inr e ↦ rw e (
        after-keeps known _
          (lift (create_from_capabilities m info.peer_id info.services transport) p) refl
          (λ services q.
            after-keeps known _ (add_services services q) (add_services-known services q)
              (λ u q'. refl)))
  ]

  -- The node knows the peer of a key, in some version from an old one on.
  abbrev pub Remembers : String → ℕ → Peering m v → Type 0
  Remembers k old p =
      (now : NodeInfo m.ServiceMetadata) × (lookup k (known p) ≡ some now) × (old ≤ now.version)

  Remembers-same :
      (k : String) (old : ℕ) (p q : Peering m v)
      → known q ≡ known p
      → Remembers k old p
      → Remembers k old q
  Remembers-same k old p q same (now, found, newer) = (now, ap (lookup k) same ∙ found, newer)

  know-Remembers :
      (k : String) (old : ℕ) (info : NodeInfo m.ServiceMetadata) (p q : Peering m v)
      → (str_eq info.peer_id.public_key k ≡ true → old ≤ info.version)
      → (str_eq info.peer_id.public_key k ≡ false → lookup k (known q) ≡ lookup k (known p))
      → Remembers k old p
      → Remembers k old (know info q)
  know-Remembers k old info p q newer other (now, found, since) =
      elim (Bool-cases (str_eq info.peer_id.public_key k)) [
        | inl e ↦
            (info, lookup-insert info.peer_id.public_key k info (known q) ∙ rw e refl, newer e)
        | inr e ↦ (
          now,
          lookup-insert info.peer_id.public_key k info (known q) ∙ rw e (other e ∙ found),
          since,
        )
      ]

  renewed-Remembers :
      (k : String) (old : ℕ) (transport : Bool) (info : NodeInfo m.ServiceMetadata)
      (p : Peering m v) (r : Result (Unit {0}) PeeringError × Peering m v)
      → known r.1 ≡ known p
      → (str_eq info.peer_id.public_key k ≡ true → old ≤ info.version)
      → Remembers k old p
      → Remembers k old
          (after
            (λ _. add_new_peer transport info)
            (after (λ _. modify (know info)) (after (λ _. modify (forget info.peer_id)) r))).1
  renewed-Remembers k old transport info p (err e, q) same newer old_one =
      Remembers-same k old p q same old_one
  renewed-Remembers k old transport info p (ok u, q) same newer old_one =
      Remembers-same k old (know info (forget info.peer_id q))
        (add_new_peer transport info (know info (forget info.peer_id q))).1
        (add_new_peer-known transport info (know info (forget info.peer_id q)))
        (know-Remembers k old info p (forget info.peer_id q) newer
          (λ e. lookup-remove info.peer_id.public_key k (known q) ∙ rw e (ap (lookup k) same))
          old_one)

  process_known-Remembers :
      (k : String) (old : ℕ) (transport : Bool) (info : NodeInfo m.ServiceMetadata)
      (found : Option (NodeInfo m.ServiceMetadata)) (p : Peering m v)
      → lookup info.peer_id.public_key (known p) ≡ found
      → Remembers k old p
      → Remembers k old (process_known transport info found p).1
  process_known-Remembers k old transport info none p h (now, at_k, since) =
      Remembers-same k old (know info p) (add_new_peer transport info (know info p)).1
        (add_new_peer-known transport info (know info p))
        (know-Remembers k old info p p
          (λ e. absurd (cc (h, at_k, (eq_iff info.peer_id.public_key k).0 e))) (λ e. refl)
          (now, at_k, since))
  process_known-Remembers k old transport info (some previous) p h (now, at_k, since) =
      elim (Bool-cases (ltb previous.version info.version)) [
        | inl e ↦ rw e (
            renewed-Remembers k old transport info p (remove_peer_services previous.services p)
              (remove_peer_services-known previous.services p)
              (λ same. newest (version_eq ((eq_iff info.peer_id.public_key k).0 same)) e)
              (now, at_k, since))
        | inr e ↦ rw e (now, at_k, since)
      ]
    where
      version_eq : info.peer_id.public_key ≡ k → now.version ≡ previous.version
      version_eq same = cc (h, at_k, same)

      newest :
          now.version ≡ previous.version
          → ltb previous.version info.version ≡ true
          → old ≤ info.version
      newest same e = ground (arith, since)

  -- One announcement of a peer, with or without a transport.
  pub data Step (p : Peering m v) : Peering m v → Type 0 where
    announces :
        (transport : Bool) (info : NodeInfo m.ServiceMetadata)
        → Step p (process_remote_capabilities transport info p).1

  pub data Reach (p : Peering m v) : Peering m v → Type 0 where
    here : Reach p p
    next : {q r : Peering m v} → Reach p q → Step q r → Reach p r

  Step-Remembers :
      (k : String) (old : ℕ) {p q : Peering m v} → Step p q → Remembers k old p → Remembers k old q
  unfolding process_remote_capabilities
  Step-Remembers k old {p} (announces transport info) h =
      process_known-Remembers k old transport info (lookup info.peer_id.public_key p.known_peers) p
        refl h

  -- A peer that the node knows is still known after any announcements, in no older version, also
  -- where processing one of them has failed.
  pub Reach-version :
      (k : String) (old : NodeInfo m.ServiceMetadata) (p q : Peering m v)
      → lookup k p.known_peers ≡ some old
      → Reach p q
      → (now : NodeInfo m.ServiceMetadata) × (lookup k q.known_peers ≡ some now)
        × (old.version ≤ now.version)
  Reach-version k old p q h here = (old, h, omega arith)
  Reach-version k old p q h (next reached step) =
      Step-Remembers k old.version step (Reach-version k old p _ h reached)
