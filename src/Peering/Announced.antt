-- ===== src/Peering/Announced.antt =====
-- Announcements that lead nowhere: one that is refused, and one that is lost.
use rust_node.Base.{
  ℕ, ◌≡◌, refl, ap, ◌∙◌, Bool, true, false, List, [], ◌∷◌, none, some, ok, err, ltb, arith, eq_refl,
}
use rust_node.Base.Assoc.{lookup, lookup-insert}
use rust_node.Network.{NodeInfo}
use rust_node.Topic
use rust_node.Topic.{TopicPath, TopicError, DefaultHasher, new_action_topic}
use rust_node.Trie.Search.{find}
use rust_node.Trie.Removal.{is_nil}
use rust_node.Registry.{Vocabulary}
use rust_node.Peering.{
  Metadata, Services, PeeringError, service_not_found, create_from_capabilities,
  remove_remote_service,
}
use rust_node.Peering.Known.{
  Peering, remove_peer_services, add_new_peer, know, process_known, process_remote_capabilities,
}

ltb_irrefl : (n : ℕ) → ltb n n ≡ false
ltb_irrefl n = ground arith

module _ ⦃hasher : DefaultHasher⦄ {m : Metadata} {v : Vocabulary} where
  remove_remote_service-absent :
      (topic : TopicPath) (s : Services m v)
      → find topic s.remote_services ≡ []
      → remove_remote_service topic s ≡ (err service_not_found, s)
  unfolding remove_remote_service
  remove_remote_service-absent topic s h = rw h refl

  remove_peer_services-absent :
      (s : m.ServiceMetadata) (rest : List m.ServiceMetadata) (topic : TopicPath) (p : Peering m v)
      → Topic.new (m.service_path s) (m.network_id s) ≡ ok topic
      → find topic p.services.remote_services ≡ []
      → remove_peer_services (s ∷ rest) p ≡ (err service_not_found, p)
  unfolding remove_peer_services
  remove_peer_services-absent s rest topic p path h =
      rw (path, remove_remote_service-absent topic p.services h) refl

  process_known-refused :
      (transport : Bool) (old info : NodeInfo m.ServiceMetadata) (e : PeeringError)
      (p : Peering m v)
      → ltb old.version info.version ≡ true
      → remove_peer_services old.services p ≡ (err e, p)
      → process_known transport info (some old) p ≡ (err e, p)
  process_known-refused transport old info e p newer h = rw (newer, h) refl

  -- A newer announcement of a known peer is refused where no remote service is registered under the
  -- path of its first known service, and the node stays as it was.
  pub process_remote_capabilities-refused :
      (transport : Bool) (old info : NodeInfo m.ServiceMetadata) (s : m.ServiceMetadata)
      (rest : List m.ServiceMetadata) (topic : TopicPath) (p : Peering m v)
      → lookup info.peer_id.public_key p.known_peers ≡ some old
      → ltb old.version info.version ≡ true
      → old.services ≡ s ∷ rest
      → Topic.new (m.service_path s) (m.network_id s) ≡ ok topic
      → find topic p.services.remote_services ≡ []
      → process_remote_capabilities transport info p ≡ (err service_not_found, p)
  unfolding process_remote_capabilities
  process_remote_capabilities-refused transport old info s rest topic p h newer first path
        none_found =
      ap (λ o. process_known transport info o p) h
      ∙ process_known-refused transport old info service_not_found p newer (
          ap (λ services. remove_peer_services services p) first
          ∙ remove_peer_services-absent s rest topic p path none_found)

  -- A new peer with services that is announced while there is no transport is known from then on,
  -- and the same announcement with a transport adds no service.
  pub process_remote_capabilities-lost :
      (info : NodeInfo m.ServiceMetadata) (p : Peering m v)
      → lookup info.peer_id.public_key p.known_peers ≡ none
      → is_nil info.services ≡ false
      → process_remote_capabilities true info (process_remote_capabilities false info p).1
        ≡ (ok [], know info p)
  unfolding process_remote_capabilities add_new_peer create_from_capabilities
  process_remote_capabilities-lost info p unknown services =
      simp
        (
          unknown,
          services,
          lookup-insert info.peer_id.public_key info.peer_id.public_key info p.known_peers,
          eq_refl info.peer_id.public_key,
          ltb_irrefl info.version,
        )
        refl
