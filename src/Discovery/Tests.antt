-- ===== src/Discovery/Tests.antt =====
-- A run of a discovery, and the theorem about it at concrete inputs.
use rust_node.Base.{ℕ, String, ◌≡◌, refl, [], ◌∷◌, none, ok}
use rust_node.Base.Assoc.{lookup, insert, remove}
use rust_node.Network.{NodeInfo, new_peer_id}
use rust_node.Discovery.{
  MemoryDiscovery, peer_info_of, set_local_node, add_node_internal, init, start_announcing,
  start_announce_task, announce_round, stop_announcing, set_discovery_listener, shutdown,
}
use rust_node.Discovery as Discovery
use rust_node.Discovery.Laws.{rounds, stop_announcing-start_announcing}

runs : Unit {0}
unfolding lookup insert remove Discovery.new set_local_node add_node_internal init start_announcing
    stop_announcing set_discovery_listener shutdown start_announce_task announce_round
runs = tt

abbrev here : NodeInfo String
here = record {
  peer_id = new_peer_id "b";
  network_ids = "main" ∷ [];
  addresses = "host:1" ∷ [];
  services = [];
  version = 0;
}

-- Listeners and options are numbers.
abbrev ready : MemoryDiscovery String ℕ ℕ
ready = set_discovery_listener 8 (init 60 (set_local_node here Discovery.new))

ready_runs :
    ((start_announcing ready).1.nodes ≡ ("b", here) ∷ [])
    × ((start_announcing ready).1.calls ≡ (8, peer_info_of here) ∷ [])
    × ((shutdown (start_announcing ready).1).nodes ≡ [])
unfolding runs
ready_runs = (refl, refl, refl)

stop_announcing-start_announcing_example :
    ((start_announcing ready).0 ≡ ok tt)
    × ((rounds 3 (stop_announcing (rounds 2 (start_announcing ready).1))).calls
        ≡ (8, peer_info_of here) ∷ (8, peer_info_of here) ∷ (8, peer_info_of here) ∷ [])
    × (lookup "b" (rounds 3 (stop_announcing (rounds 2 (start_announcing ready).1))).nodes ≡ none)
unfolding runs
stop_announcing-start_announcing_example =
    stop_announcing-start_announcing here 60 2 3 ready "b" refl refl refl
