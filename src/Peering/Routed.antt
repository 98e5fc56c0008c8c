-- ===== src/Peering/Routed.antt =====
-- A new peer announces a service with an action: what a request by the action's topic then finds.
use rust_node.Base.{◌≡◌, refl, ap, true, [], ◌∷◌, ok}
use rust_node.Network.{PeerId, NodeInfo}
use rust_node.Topic
use rust_node.Topic.{TopicPath, DefaultHasher}
use rust_node.Trie.{set_value}
use rust_node.Trie.Search.{find_matches}
use rust_node.Registry.{Vocabulary}
use rust_node.Peering.{
  Metadata, RemoteService, Services, remote_service, create_services, create_from_capabilities,
  register_found, register_remote_service, init,
}
use rust_node.Peering.Known.{Peering, add_services, add_new_peer}

pub create_services-one :
    ⦃hasher : DefaultHasher⦄
    → (m : Metadata) (id : PeerId) (s : m.ServiceMetadata) (topic : TopicPath)
    → Topic.new (m.name s) (m.network_id s) ≡ ok topic
    → create_services m id (s ∷ []) ≡ remote_service m id s topic ∷ []
create_services-one m id s topic h = rw h refl

module _ ⦃hasher : DefaultHasher⦄ {m : Metadata} {v : Vocabulary} where
  -- The services with a new one, which is registered and initialised.
  abbrev pub joined : RemoteService m → Services m v → Services m v
  joined service s =
      init service
        (record s { remote_services = set_value service.service_topic service s.remote_services })

  register_remote_service-fresh :
      (service : RemoteService m) (s : Services m v)
      → find_matches service.service_topic s.remote_services ≡ []
      → register_remote_service service s ≡ (
        ok tt,
        record s { remote_services = set_value service.service_topic service s.remote_services },
      )
  unfolding register_remote_service
  register_remote_service-fresh service s h = ap (λ found. register_found service found s) h

  add_services-one :
      (service : RemoteService m) (own : TopicPath) (p : Peering m v)
      → find_matches service.service_topic p.services.remote_services ≡ []
      → Topic.new service.service_topic.path p.network_id ≡ ok own
      → add_services (service ∷ []) p ≡ (ok tt, record p { services = joined service p.services })
  unfolding add_services
  add_services-one service own p fresh h =
      rw (register_remote_service-fresh service p.services fresh, h) refl

  pub add_new_peer-one :
      (info : NodeInfo m.ServiceMetadata) (s : m.ServiceMetadata) (service : RemoteService m)
      (own : TopicPath) (p : Peering m v)
      → info.services ≡ s ∷ []
      → create_services m info.peer_id (s ∷ []) ≡ service ∷ []
      → find_matches service.service_topic p.services.remote_services ≡ []
      → Topic.new service.service_topic.path p.network_id ≡ ok own
      → add_new_peer true info p
        ≡ (ok (service ∷ []), record p { services = joined service p.services })
  unfolding add_new_peer create_from_capabilities
  add_new_peer-one info s service own p only created fresh h =
      rw (only, created, add_services-one service own p fresh h) refl
