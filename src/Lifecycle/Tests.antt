-- ===== src/Lifecycle/Tests.antt =====
-- Runs of a node's services, and the theorems about them at concrete inputs.
use rust_node.Base.{
  ◌⊎◌, ℕ, String, ◌≡◌, refl, false, true, [], ◌∷◌, length, none, some, ok, err, ◌==◌, if◌then◌else◌,
}
use rust_node.Base.Assoc.{lookup, insert}
use rust_node.Text.{contains_char, split_nonempty}
use rust_node.Topic
use rust_node.Topic.Segment.{literal, segment_eq, from_str, to_string, is_template_param}
use rust_node.Topic.{
  DefaultHasher, TopicPath, split_network, some_segments, scan, scan_segment, scan_kind, assemble,
  first_text, action_path_of, get_segments,
}
use rust_node.Topic.Identity.{topic_eq, zip_eq}
use rust_node.Trie.{
  new_trie, set_value, set_values, set_values_internal, set_step, upsert_child, get_child,
}
use rust_node.Registry.{Vocabulary, ServiceRegistry, update_service_state, get_service_state}
use rust_node.Registry as Registry
use rust_node.Events.{node_changed}
use rust_node.Lifecycle.{
  Services, LifecycleNode, networking_failed, insert_service, register_local_service, add_service,
  start_services, start, stop,
}
use rust_node.Lifecycle.Laws.{start-states, stop-start}

instance abbrev counting : DefaultHasher
counting = record { finish = λ ws. length ws }

runs : Unit {0}
unfolding lookup insert Topic.new split_network some_segments split_nonempty scan scan_segment
    scan_kind assemble first_text action_path_of from_str get_segments set_value set_values
    set_values_internal set_step upsert_child get_child is_template_param contains_char to_string
    topic_eq zip_eq segment_eq update_service_state get_service_state node_changed insert_service
    register_local_service add_service start_services start stop
runs = tt

-- The state of a service is a text.
abbrev texts : Vocabulary
texts = record {
  ActionHandler = ℕ;
  ActionMetadata = ℕ;
  EventCallback = ℕ;
  EventMetadata = String;
  event_path = λ s. s;
  ServiceState = String;
}

-- A service is a number, and 9 does not start.
abbrev numbered : Services texts
numbered = record {
  Service = ℕ;
  path = λ service. if service == 9 then "broken" else "auth";
  network_id = λ service. none;
  initialized = "initialized";
  running = "running";
  stopped = "stopped";
  error = "error";
  init = λ service topic r. (ok tt, r);
  start = λ service topic r. (if service == 9 then err "no database" else ok tt, r);
  stop = λ service topic r. (ok tt, r);
}

abbrev empty : LifecycleNode numbered
empty = record {
  node = record {
    network_id = "main";
    service_registry = Registry.new;
    running = false;
    registry_version = 0;
    notify_waits = false;
  };
  local_services = new_trie;
  local_services_list = [];
  supports_networking = true;
}

abbrev with_two : LifecycleNode numbered
with_two = (add_service numbered 9 (add_service numbered 5 empty).1).1

abbrev one_segment : String → String → TopicPath
one_segment path segment = record {
  path = path;
  network_id = "main";
  segments = literal segment ∷ [];
  is_pattern = false;
  has_templates = false;
  service_path = segment;
  cached_action_path = "";
  segment_count = 1;
  hash_components = 2 ∷ [];
  segment_type_bitmap = 0;
}

abbrev auth : TopicPath
auth = one_segment "main:auth" "auth"

abbrev broken : TopicPath
broken = one_segment "main:broken" "broken"

listed : with_two.local_services_list ≡ (auth, 5) ∷ (broken, 9) ∷ []
unfolding runs
listed = refl

idle : with_two.node.running ≡ false
unfolding runs
idle = refl

supported : with_two.supports_networking ≡ true
unfolding runs
supported = refl

start-states_example :
    ((numbered.start 9 broken
          (start_services numbered ((auth, 5) ∷ []) with_two.node.service_registry)).0
        ≡ ok tt)
      × (get_service_state broken (start numbered (ok tt) with_two).1.node.service_registry
          ≡ some "running")
    ⊎ ((e : String) × ((numbered.start 9 broken
            (start_services numbered ((auth, 5) ∷ []) with_two.node.service_registry)).0
          ≡ err e)
        × (get_service_state broken (start numbered (ok tt) with_two).1.node.service_registry
            ≡ some "error"))
start-states_example =
    start-states numbered (ok tt) ((auth, 5) ∷ []) [] broken 9 with_two (λ service topic r. refl)
      idle listed tt

stop-start_example :
    ((start numbered (err "no port") with_two).0 ≡ err (networking_failed "no port"))
    × ((stop numbered (start numbered (err "no port") with_two).1).0 ≡ ok tt)
    × (get_service_state auth
          (stop numbered (start numbered (err "no port") with_two).1).1.node.service_registry
        ≡ some "running")
stop-start_example =
    stop-start numbered "no port" [] ((broken, 9) ∷ []) auth 5 with_two (λ service topic r. refl)
      idle supported listed (refl, tt) refl
