-- ===== src/Requests/Tests.antt =====
-- Runs of a request, and the theorems about it at concrete inputs.
use rust_node.Base.{
  ◌+◌, ◌%◌, arith, ℕ, false, String, ◌≡◌, ◌≢◌, refl, [], ◌∷◌, length, ok, err, some, get_elem?,
}
use rust_node.Text.{contains_char, split_nonempty}
use rust_node.Topic
use rust_node.Topic.Segment.{literal, from_str, to_string, is_template_param}
use rust_node.Topic.{
  DefaultHasher, TopicPath, split_network, some_segments, scan, scan_segment, scan_kind, assemble,
  first_text, action_path_of, get_segments,
}
use rust_node.Trie.Search.{find_matches, find_matches_internal, visit_template}
use rust_node.Trie.{set_value, set_values, set_values_internal, set_step, upsert_child, get_child}
use rust_node.Balancing.{select_handler}
use rust_node.Registry.{
  Vocabulary, ServiceRegistry, register_remote_action_handler, get_local_action_handler,
  get_remote_action_handlers,
}
use rust_node.Registry as Registry
use rust_node.Requests.{
  Node, remote, index_out_of_range, request, request_topic, route, route_remote,
}
use rust_node.Requests.Laws.{request-in_range, request_row, request_row-round}

instance abbrev counting : DefaultHasher
counting = record { finish = λ ws. length ws }

runs : Unit {0}
unfolding request request_topic route route_remote select_handler Topic.new split_network
    some_segments split_nonempty scan scan_segment scan_kind assemble first_text action_path_of
    from_str get_segments find_matches find_matches_internal visit_template set_value set_values
    set_values_internal set_step upsert_child get_child register_remote_action_handler
    get_local_action_handler get_remote_action_handlers is_template_param contains_char to_string
runs = tt

abbrev numbers : Vocabulary
numbers = record {
  ActionHandler = ℕ;
  ActionMetadata = ℕ;
  EventCallback = ℕ;
  EventMetadata = String;
  event_path = λ s. s;
  ServiceState = ℕ;
}

abbrev login : TopicPath
login = record {
  path = "main:auth/login";
  network_id = "main";
  segments = literal "auth" ∷ literal "login" ∷ [];
  is_pattern = false;
  has_templates = false;
  service_path = "auth";
  cached_action_path = "auth/login";
  segment_count = 2;
  hash_components = 2 ∷ 2 ∷ [];
  segment_type_bitmap = 0;
}

abbrev with_remote : Node numbers
with_remote = record {
  network_id = "main";
  service_registry = register_remote_action_handler login 5 Registry.new;
  load_balancer = record { current_index = 3 };
}

request_runs : (request with_remote "auth/login").0 ≡ ok (remote 5)
unfolding runs
request_runs = refl

request-in_range_example : (request with_remote "auth/login").0 ≢ err index_out_of_range
request-in_range_example = request-in_range {v = numbers} with_remote "auth/login"

-- The counter starts at 3, and there is one handler.
request_row-round_example :
    (handler : ℕ) × (get_elem? (request_row 2 with_remote "auth/login") 1
      ≡ some (ok (remote handler)))
    × (get_elem?
          (get_remote_action_handlers login with_remote.service_registry)
          ((3 + 1) % length (get_remote_action_handlers login with_remote.service_registry))
        ≡ some handler)
unfolding runs
request_row-round_example =
    request_row-round {v = numbers} 2 1 with_remote "auth/login" login refl refl (λ e. cc)
      (omega arith) (omega arith)
