-- ===== src/Peers/Tests.antt =====
-- Runs of the registry of peers, and the theorems about it at concrete inputs.
use rust_node.Base.{ℕ, ◌+◌, String, ◌≡◌, refl, not, [], filter, length, some, err}
use rust_node.Network.{PeerInfo}
use rust_node.Base.Assoc.{lookup, insert, remove}
use rust_node.Base.Assoc.Distinct.{IsMap, remove_each}
use rust_node.Peers
use rust_node.Peers.{
  PeerEntry, PeerRegistry, PeerError, discovered, connected, peer_not_found, new_entry, is_stale,
  add_peer, change_peer, update_peer_status, update_peer, find_peer, find_peers_by_status,
  remove_peer, cleanup_stale_peers,
}
use rust_node.Peers.Laws.{
  IsFiled, here, next, adds, cleans, Reach-IsFiled, cleanup_stale_peers-contents,
}

runs : Unit {0}
unfolding lookup insert remove remove_each add_peer change_peer update_peer_status update_peer
    find_peer find_peers_by_status remove_peer cleanup_stale_peers
runs = tt

abbrev early : ℕ
early = 1000

abbrev late : ℕ
late = 3600000002000

abbrev peer : String → PeerInfo
peer key = record { public_key = key; addresses = [] }

abbrev two : PeerRegistry
two = add_peer late late (peer "b") (add_peer early early (peer "a") Peers.new)

-- The first peer was seen over an hour ago.
cleans_one : (cleanup_stale_peers late two).0 ≡ 1
unfolding runs
cleans_one = refl

keeps_fresh : find_peer "b" (cleanup_stale_peers late two).1 ≡ some (new_entry late late (peer "b"))
unfolding runs
keeps_fresh = refl

status_of_unknown :
    (update_peer_status late (record { public_key = "c" }) connected two).0
    ≡ err (peer_not_found "c")
unfolding runs
status_of_unknown = refl

two-IsMap : IsMap two.peers
unfolding IsMap lookup insert add_peer
two-IsMap = (refl, (refl, tt))

cleanup_stale_peers-contents_example :
    ((cleanup_stale_peers late two).1.peers
      ≡ filter (λ e. not (is_stale late two.options.peer_ttl e.1)) two.peers)
    × ((cleanup_stale_peers late two).0 + length (cleanup_stale_peers late two).1.peers
        ≡ length two.peers)
cleanup_stale_peers-contents_example = cleanup_stale_peers-contents late two two-IsMap

Reach-IsFiled_example : IsFiled (cleanup_stale_peers late two).1
Reach-IsFiled_example = Reach-IsFiled Peers.default_options (cleanup_stale_peers late two).1 (
    next (next (next here (adds early early (peer "a"))) (adds late late (peer "b"))) (cleans late))
