-- ===== src/Peering/Known.antt =====
-- src/node.rs: `process_remote_capabilities`, the peers that the node knows and their services.
use rust_node.Base.{
  String, Bool, List, [], ◌∷◌, Option, none, some, Result, ok, err, if◌then◌else◌, ltb,
}
use rust_node.Base.Assoc.{lookup, insert, remove}
use rust_node.Base.Calls.{Call, ◌>>=◌, ◌>>◌, return, lift, modify}
use rust_node.Network.{PeerId, NodeInfo}
use rust_node.Trie.Removal.{is_nil}
use rust_node.Topic
use rust_node.Topic.{TopicPath, TopicError, DefaultHasher}
use rust_node.Registry.{Vocabulary}
use rust_node.Peering.{
  Metadata, RemoteService, Services, PeeringError, bad_topic, create_from_capabilities,
  register_remote_service, init, remove_remote_service,
}

-- The node's part: its network, its services and the peers that it knows, by their key.
pub record Peering (m : Metadata) (v : Vocabulary) : Type 0 where
  pub network_id : String
  pub services : Services m v
  pub known_peers : List (String × NodeInfo m.ServiceMetadata)

-- The topic of a service; `unwrap` of an error panics in `remove_peer_services`, an error here.
abbrev pub or_bad_topic : Result TopicPath TopicError → Result TopicPath PeeringError
or_bad_topic (err e) = err (bad_topic e)
or_bad_topic (ok topic) = ok topic

module _ ⦃hasher : DefaultHasher⦄ {m : Metadata} {v : Vocabulary} where
  -- A call on the services alone.
  abbrev pub on_services :
      {A : Type 0} → Call (Services m v) PeeringError A → Call (Peering m v) PeeringError A
  on_services call p = let (outcome, s) = call p.services in (outcome, record p { services = s })

  unfoldable pub remove_peer_services :
      List m.ServiceMetadata → Call (Peering m v) PeeringError (Unit {0})
  remove_peer_services [] p = (ok tt, p)
  remove_peer_services (s ∷ rest) p =
      (lift (or_bad_topic (Topic.new (m.service_path s) (m.network_id s)))
          >>= (λ topic. on_services (remove_remote_service topic))
          >> remove_peer_services rest)
        p

  -- What follows a registration; a service that is not registered is skipped.
  abbrev pub add_registered :
      RemoteService m
      → Result (Unit {0}) PeeringError × Services m v
      → Call (Peering m v) PeeringError (Unit {0})
  add_registered service (err e, s) p = (ok tt, record p { services = s })
  add_registered service (ok u, s) p =
      (lift (or_bad_topic (Topic.new service.service_topic.path p.network_id)) >>= λ topic.
      modify (λ p'. record p' { services = init service p'.services }))
        (record p { services = s })

  unfoldable pub add_services : List (RemoteService m) → Call (Peering m v) PeeringError (Unit {0})
  add_services [] p = (ok tt, p)
  add_services (service ∷ rest) p =
      ((λ p'. add_registered service (register_remote_service service p'.services) p')
          >> add_services rest)
        p

  unfoldable pub add_new_peer :
      Bool → NodeInfo m.ServiceMetadata → Call (Peering m v) PeeringError (List (RemoteService m))
  add_new_peer transport info p =
      if is_nil info.services
      then (ok [], p)
      else (lift (create_from_capabilities m info.peer_id info.services transport) >>= λ services.
            add_services services >> return services)
          p

  abbrev pub know : NodeInfo m.ServiceMetadata → Peering m v → Peering m v
  know info p = record p { known_peers = insert info.peer_id.public_key info p.known_peers }

  abbrev pub forget : PeerId → Peering m v → Peering m v
  forget id p = record p { known_peers = remove id.public_key p.known_peers }

  -- With what the node knows of the peer.
  abbrev pub process_known :
      Bool
      → NodeInfo m.ServiceMetadata
      → Option (NodeInfo m.ServiceMetadata)
      → Call (Peering m v) PeeringError (List (RemoteService m))
  process_known transport info none p = (modify (know info) >> add_new_peer transport info) p
  process_known transport info (some old) p =
      if ltb old.version info.version
      then (remove_peer_services old.services
            >> modify (forget info.peer_id)
            >> modify (know info)
            >> add_new_peer transport info)
          p
      else (ok [], p)

  unfoldable pub process_remote_capabilities :
      Bool → NodeInfo m.ServiceMetadata → Call (Peering m v) PeeringError (List (RemoteService m))
  process_remote_capabilities transport info p =
      process_known transport info (lookup info.peer_id.public_key p.known_peers) p
