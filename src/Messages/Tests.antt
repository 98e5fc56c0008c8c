-- ===== src/Messages/Tests.antt =====
-- Runs of requests between nodes, and the theorems about them at concrete inputs.
use rust_node.Base.{
  ℕ, false, String, ◌≡◌, refl, true, [], ◌∷◌, length, Option, none, some, Result, ok, err, ◌==◌,
  if◌then◌else◌,
}
use rust_node.Base.Assoc.{lookup, insert, remove}
use rust_node.Text.{contains_char, split_nonempty}
use rust_node.Network.{new_peer_id, Bytes, NetworkMessage, NetworkMessagePayloadItem}
use rust_node.Topic
use rust_node.Topic.Segment.{literal, from_str, to_string, is_template_param}
use rust_node.Topic.{
  DefaultHasher, TopicPath, split_network, some_segments, scan, scan_segment, scan_kind, assemble,
  first_text, action_path_of, get_segments,
}
use rust_node.Topic.Template.{extract_params}
use rust_node.Trie.Search.{find_matches, find_matches_internal, visit_template}
use rust_node.Trie.{set_value, set_values, set_values_internal, set_step, upsert_child, get_child}
use rust_node.Registry.{Vocabulary, register_local_action_handler, get_local_action_handler}
use rust_node.Registry as Registry
use rust_node.Requests.{Node, Route, local}
use rust_node.Messages.{Values, local_request, handle_network_request}
use rust_node.Messages.Pending.{Pending}
use rust_node.Messages.Laws.{handle_all, handle_network_request-dropped}

instance abbrev counting : DefaultHasher
counting = record { finish = λ ws. length ws }

runs : Unit {0}
unfolding lookup insert remove Topic.new split_network some_segments split_nonempty scan
    scan_segment scan_kind assemble first_text action_path_of from_str get_segments find_matches
    find_matches_internal visit_template set_value set_values set_values_internal set_step
    upsert_child get_child register_local_action_handler get_local_action_handler is_template_param
    contains_char to_string extract_params local_request
runs = tt

abbrev numbers : Vocabulary
numbers = record {
  ActionHandler = ℕ;
  ActionMetadata = ℕ;
  EventCallback = ℕ;
  EventMetadata = String;
  event_path = λ s. s;
  ServiceState = ℕ;
}

abbrev read : Bytes → Result ℕ String
read [] = err "no bytes"
read (b ∷ rest) = ok b

-- The handler 9 fails, every other one gives its number.
abbrev called : Route ℕ → Option ℕ → Result (Option ℕ) String
called (local handler params) value = if handler == 9 then err "no such user" else ok (some handler)
called other value = err "not here"

abbrev bytes : Values numbers
bytes = record {
  Value = ℕ;
  is_null = λ value. value == 0;
  null = 0;
  error_value = λ text. 1;
  serialize_value = λ value. ok (value ∷ []);
  deserialize_value = read;
  run = called;
}

abbrev login : TopicPath
login = record {
  path = "main:auth/login";
  network_id = "main";
  segments = literal "auth" ∷ literal "login" ∷ [];
  is_pattern = false;
  has_templates = false;
  service_path = "auth";
  cached_action_path = "auth/login";
  segment_count = 2;
  hash_components = 2 ∷ 2 ∷ [];
  segment_type_bitmap = 0;
}

abbrev with_local : ℕ → Node numbers
with_local handler = record {
  network_id = "main";
  service_registry = register_local_action_handler login handler none Registry.new;
  load_balancer = record { current_index = 0 };
}

abbrev item : NetworkMessagePayloadItem
item = record { path = "auth/login"; value_bytes = 3 ∷ []; correlation_id = "q" }

abbrev asked : NetworkMessage
asked = record {
  source = new_peer_id "a";
  destination = new_peer_id "b";
  message_type = "Request";
  payloads = item ∷ [];
}

-- Call 2 waits for the answer to "q".
abbrev waiting : Pending bytes
waiting = record { pending_requests = ("q", 2) ∷ []; delivered = [] }

call_2_waits : lookup "q" waiting.pending_requests ≡ some 2
unfolding lookup
call_2_waits = refl

failed : local_request bytes (with_local 9) "auth/login" (some 3) ≡ err "no such user"
unfolding runs
failed = refl

abbrev read_written : Result Bytes String → Result ℕ String
read_written (err e) = err e
read_written (ok body) = read body

handle_network_request-dropped_example :
    handle_all bytes
      (handle_network_request bytes (new_peer_id "b") (with_local 9) true asked).1
      waiting
    ≡ waiting
handle_network_request-dropped_example =
    handle_network_request-dropped bytes (new_peer_id "b") (with_local 9) asked item 3
      "no such user" (1 ∷ []) waiting refl refl failed refl
