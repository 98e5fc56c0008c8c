-- ===== src/Peering/Tests.antt =====
-- Runs of announcements, and the theorems about them at concrete inputs.
use rust_node.Base.{ℕ, false, true, String, ◌≡◌, ◌≤◌, refl, [], ◌∷◌, length, none, some, ok}
use rust_node.Base.Assoc.{lookup, insert, remove}
use rust_node.Text.{contains_char, split_nonempty}
use rust_node.Network.{new_peer_id, NodeInfo}
use rust_node.Topic
use rust_node.Topic.Segment.{literal, from_str, to_string, is_template_param}
use rust_node.Topic.{
  DefaultHasher, TopicPath, split_network, some_segments, scan, scan_segment, scan_kind, assemble,
  first_text, action_path_of, get_segments, new_action_topic,
}
use rust_node.Trie.Search.{find, find_matches, find_matches_internal, visit_template}
use rust_node.Trie.{
  set_value, set_values, set_values_internal, set_step, upsert_child, get_child, new_trie,
}
use rust_node.Registry.{
  Vocabulary, register_remote_action_handler, get_remote_action_handlers, with_new,
}
use rust_node.Registry as Registry
use rust_node.Peering.{
  Metadata, create_from_capabilities, register_remote_service, init, init_actions,
  remove_remote_service,
}
use rust_node.Peering.Known.{
  Peering, remove_peer_services, add_services, add_new_peer, know, process_remote_capabilities,
}
use rust_node.Peering.Laws.{here, next, announces, Reach-version}
use rust_node.Peering.Announced.{process_remote_capabilities-lost}

instance abbrev counting : DefaultHasher
counting = record { finish = λ ws. length ws }

runs : Unit {0}
unfolding lookup insert remove Topic.new split_network some_segments split_nonempty scan
    scan_segment scan_kind assemble first_text action_path_of from_str get_segments new_action_topic
    find find_matches find_matches_internal visit_template set_value set_values set_values_internal
    set_step upsert_child get_child register_remote_action_handler get_remote_action_handlers
    is_template_param contains_char to_string create_from_capabilities register_remote_service init
    init_actions remove_remote_service remove_peer_services add_services add_new_peer
    process_remote_capabilities
runs = tt

abbrev numbers : Vocabulary
numbers = record {
  ActionHandler = ℕ;
  ActionMetadata = ℕ;
  EventCallback = ℕ;
  EventMetadata = String;
  event_path = λ s. s;
  ServiceState = ℕ;
}

-- The metadata of a service is its name and its path, that of an action its name.
abbrev pairs : Metadata
pairs = record {
  ServiceMetadata = String × String;
  ActionMetadata = String;
  name = λ s. s.0;
  service_path = λ s. s.1;
  network_id = λ s. "main";
  version = λ s. "1";
  description = λ s. "";
  actions = λ s. "login" ∷ [];
  action_name = λ a. a;
}

abbrev alone : Peering pairs numbers
alone = record {
  network_id = "main";
  services = record { registry = Registry.new; remote_services = new_trie };
  known_peers = [];
}

abbrev peer : ℕ → String → NodeInfo (String × String)
peer version path = record {
  peer_id = new_peer_id "b";
  network_ids = [];
  addresses = [];
  services = ("auth", path) ∷ [];
  version = version;
}

-- The service is registered under its name, and looked for under its path.
abbrev joined : Peering pairs numbers
joined = (process_remote_capabilities true (peer 1 "other") alone).1

knows_first : lookup "b" joined.known_peers ≡ some (peer 1 "other")
unfolding runs
knows_first = refl

Reach-version_example :
    (now : NodeInfo (String × String)) × (lookup "b"
        (process_remote_capabilities true (peer 2 "auth") joined).1.known_peers
      ≡ some now)
    × (1 ≤ now.version)
Reach-version_example =
    Reach-version "b" (peer 1 "other") joined
      (process_remote_capabilities true (peer 2 "auth") joined).1 knows_first
      (next here (announces true (peer 2 "auth")))

abbrev one_segment : String → String → TopicPath
one_segment path segment = record {
  path = path;
  network_id = "main";
  segments = literal segment ∷ [];
  is_pattern = false;
  has_templates = false;
  service_path = segment;
  cached_action_path = "";
  segment_count = 1;
  hash_components = 2 ∷ [];
  segment_type_bitmap = 0;
}

unknown : lookup "b" alone.known_peers ≡ none
unfolding lookup
unknown = refl

process_remote_capabilities-lost_example :
    process_remote_capabilities true
      (peer 1 "auth")
      (process_remote_capabilities false (peer 1 "auth") alone).1
    ≡ (ok [], know (peer 1 "auth") alone)
process_remote_capabilities-lost_example =
    process_remote_capabilities-lost (peer 1 "auth") alone unknown refl

abbrev auth : TopicPath
auth = one_segment "main:auth" "auth"

abbrev login : TopicPath
login = record {
  path = "main:auth/login";
  network_id = "main";
  segments = literal "auth" ∷ literal "login" ∷ [];
  is_pattern = false;
  has_templates = false;
  service_path = "auth";
  cached_action_path = "auth/login";
  segment_count = 2;
  hash_components = 2 ∷ 2 ∷ [];
  segment_type_bitmap = 0;
}
