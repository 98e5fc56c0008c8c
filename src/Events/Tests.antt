-- ===== src/Events/Tests.antt =====
-- Runs of events, and the theorems about them at concrete inputs.
use rust_node.Base.{
  ℕ, String, ◌≡◌, refl, false, true, [], ◌∷◌, length, none, some, Result, ok, err, ◌==◌, Perm,
}
use rust_node.Base.Assoc.{lookup, insert, remove}
use rust_node.Text.{contains_char, split_nonempty}
use rust_node.Network.{new_peer_id, Bytes, NetworkMessage}
use rust_node.Topic
use rust_node.Topic.Segment.{literal, from_str, to_string, is_template_param}
use rust_node.Topic.{
  DefaultHasher, TopicPath, split_network, some_segments, scan, scan_segment, scan_kind, assemble,
  first_text, action_path_of, get_segments,
}
use rust_node.Trie.Search.{find, find_matches, find_matches_internal, visit_template}
use rust_node.Trie.{set_value, set_values, set_values_internal, set_step, upsert_child, get_child}
use rust_node.Trie.Entries.{covers, pattern_of, IsTrie}
use rust_node.Trie.Routing.{reaches}
use rust_node.Registry.{Vocabulary}
use rust_node.Registry as Registry
use rust_node.Registry.Subscriptions.{add_entry, store_entry, get_local_event_subscribers}
use rust_node.Registry.LocalEvents.{record_service, add_metadata, register_local_event_subscription}
use rust_node.Messages.{Values}
use rust_node.Events.{
  EventNode, subscribe, node_changed, notify_subscribers, publish_with_options, handle_payload,
  handle_event_payloads, handle_network_event,
}
use rust_node.Events.Laws.{publish_each, handle_network_event-publishes}
use rust_node.Events.Subscribed.{subscribe-publish}

instance abbrev counting : DefaultHasher
counting = record { finish = λ ws. length ws }

runs : Unit {0}
unfolding lookup insert remove Topic.new split_network some_segments split_nonempty scan
    scan_segment scan_kind assemble first_text action_path_of from_str get_segments find
    find_matches find_matches_internal visit_template set_value set_values set_values_internal
    set_step upsert_child get_child is_template_param contains_char to_string add_entry store_entry
    get_local_event_subscribers record_service add_metadata register_local_event_subscription
    subscribe node_changed notify_subscribers publish_with_options handle_payload
    handle_event_payloads handle_network_event
runs = tt

abbrev numbers : Vocabulary
numbers = record {
  ActionHandler = ℕ;
  ActionMetadata = ℕ;
  EventCallback = ℕ;
  EventMetadata = String;
  event_path = λ s. s;
  ServiceState = ℕ;
}

abbrev read : Bytes → Result ℕ String
read [] = err "no bytes"
read (b ∷ rest) = ok b

abbrev bytes : Values numbers
bytes = record {
  Value = ℕ;
  is_null = λ value. value == 0;
  null = 0;
  error_value = λ text. 1;
  serialize_value = λ value. ok (value ∷ []);
  deserialize_value = read;
  run = λ route value. ok none;
}

abbrev quiet : EventNode numbers
quiet = record {
  network_id = "main";
  service_registry = Registry.new;
  running = true;
  registry_version = 4;
  notify_waits = false;
}

abbrev watching : EventNode numbers
watching = (subscribe (λ path. path) "first" "auth/joined" 7 quiet).1

abbrev joined : TopicPath
joined = record {
  path = "main:auth/joined";
  network_id = "main";
  segments = literal "auth" ∷ literal "joined" ∷ [];
  is_pattern = false;
  has_templates = false;
  service_path = "auth";
  cached_action_path = "auth/joined";
  segment_count = 2;
  hash_components = 2 ∷ 2 ∷ [];
  segment_type_bitmap = 0;
}

-- The second payload has no bytes, and the third is null.
abbrev happened : NetworkMessage
happened = record {
  source = new_peer_id "a";
  destination = new_peer_id "b";
  message_type = "Event";
  payloads =
      record { path = "auth/joined"; value_bytes = 3 ∷ []; correlation_id = "" }
      ∷ record { path = "auth/joined"; value_bytes = []; correlation_id = "" }
      ∷ record { path = "auth/joined"; value_bytes = 0 ∷ []; correlation_id = "" }
      ∷ [];
}

watching_runs :
    (watching.registry_version ≡ 5)
    × (watching.notify_waits ≡ true)
    × (handle_network_event bytes true happened watching
        ≡ record { callback = 7; topic = joined; payload = some 3 }
          ∷ record { callback = 7; topic = joined; payload = none }
          ∷ [])
unfolding runs
watching_runs = (refl, refl, refl)

handle_network_event-publishes_example :
    handle_network_event bytes true happened watching
    ≡ publish_each bytes watching happened.payloads
handle_network_event-publishes_example = handle_network_event-publishes bytes happened watching

subscribe-publish_example :
    Perm
      (publish_with_options bytes "auth/joined"
        (some 3)
        (subscribe (λ path. path) "first" "auth/joined" 7 quiet).1).1
      (record { callback = 7; topic = joined; payload = some 3 } ∷ [])
unfolding runs reaches covers pattern_of IsTrie
subscribe-publish_example =
    subscribe-publish bytes (λ path. path) "first" "auth/joined" 7 (some 3) joined quiet refl refl
      tt refl refl
