-- ===== src/Registry/Tests.antt =====
-- Runs of the registry, and the theorems about it at concrete inputs.
use rust_node.Base.{ℕ, String, ◌≡◌, refl, true, false, List, [], ◌∷◌, map, length, Perm, err}
use rust_node.Topic.{TopicPath, get_segments}
use rust_node.Topic.Segment.{literal, multi_wildcard, to_string, is_template_param}
use rust_node.Trie.Search.{
  find, find_matches, find_matches_internal, visit_template, find_wildcard_matches,
  collect_wildcard_matches, collect_children, collect_all_handlers,
}
use rust_node.Trie.Removal.{
  remove_handler, remove_handler_internal, remove_handler_step, retain, try_child, try_entry,
}
use rust_node.Trie.Entries.{IsTrie, covers, pattern_of}
use rust_node.Trie.Routing.{reaches, IsRoot}
use rust_node.Base.Assoc.{lookup, insert, remove}
use rust_node.Trie.{
  set_value, set_values, set_values_internal, set_step, upsert_child, extract_param_name, get_child,
  remove_values, remove_values_internal, remove_step, modify_child,
}
use rust_node.Registry.Subscriptions.{
  register_remote_event_subscription, get_remote_event_subscribers, unsubscribe_remote,
  unsubscribe_remote_from, unknown_id, add_entry, store_entry, replace_entries,
}
use rust_node.Registry.Subscriptions.Laws.{register_remote_event_subscription-twice}
use rust_node.Registry.{
  Vocabulary, ServiceRegistry, with_new, register_remote_action_handler, get_remote_action_handlers,
  get_service_state, update_service_state,
}
use rust_node.Registry as Registry

-- Handlers and callbacks are numbers, the metadata of an event is its path.
abbrev numbers : Vocabulary
numbers = record {
  ActionHandler = ℕ;
  ActionMetadata = ℕ;
  EventCallback = ℕ;
  EventMetadata = String;
  event_path = λ s. s;
  ServiceState = ℕ;
}

runs : Unit {0}
unfolding find find_matches find_matches_internal visit_template get_child get_segments to_string
    set_value set_values set_values_internal set_step upsert_child extract_param_name
    is_template_param remove_values remove_values_internal remove_step modify_child lookup insert
    remove remove_handler remove_handler_internal remove_handler_step retain try_child try_entry
    find_wildcard_matches collect_wildcard_matches collect_children collect_all_handlers
    register_remote_action_handler get_remote_action_handlers register_remote_event_subscription
    get_remote_event_subscribers unsubscribe_remote unsubscribe_remote_from add_entry store_entry
    replace_entries
runs = tt

abbrev plain : List String → TopicPath
plain ss = record {
  path = "";
  network_id = "main";
  segments = map literal ss;
  is_pattern = false;
  has_templates = false;
  service_path = "";
  cached_action_path = "";
  segment_count = length ss;
  hash_components = [];
  segment_type_bitmap = 0;
}

abbrev below_a : TopicPath
below_a = record (plain []) {
  segments = literal "a" ∷ multi_wildcard ∷ [];
  is_pattern = true;
  path = "main:a/>";
}

abbrev a_b : TopicPath
a_b = record (plain ("a" ∷ "b" ∷ [])) { path = "main:a/b" }

abbrev one : ServiceRegistry numbers
one = register_remote_action_handler (plain ("a" ∷ "b" ∷ [])) 1 Registry.new

one_runs :
    get_remote_action_handlers a_b (register_remote_action_handler a_b 2 one) ≡ 1 ∷ 1 ∷ 2 ∷ []
unfolding runs
one_runs = refl

abbrev watching : ServiceRegistry numbers
watching = register_remote_event_subscription "first" below_a 7 Registry.new

watching_runs :
    (get_remote_event_subscribers a_b watching ≡ ("first", 7) ∷ [])
    × (get_remote_event_subscribers a_b (register_remote_event_subscription "second" a_b 8 watching)
        ≡ ("first", 7) ∷ ("first", 7) ∷ ("second", 8) ∷ [])
    × ((unsubscribe_remote "second" watching).1 ≡ err (unknown_id "second"))
unfolding runs
watching_runs = (refl, refl, refl)

watching_IsRoot : IsRoot watching.remote_event_subscriptions
unfolding runs IsTrie
watching_IsRoot = (refl, ((refl, (tt, tt, tt), tt), tt, tt), tt)

register_remote_event_subscription-twice_example :
    Perm
      (get_remote_event_subscribers a_b
        (register_remote_event_subscription "second" a_b 8 watching))
      (("first", 7) ∷ ("first", 7) ∷ ("second", 8) ∷ [])
unfolding runs covers pattern_of reaches
register_remote_event_subscription-twice_example =
    register_remote_event_subscription-twice {v = numbers} "second" a_b 8 watching
      (("first", 7) ∷ []) refl watching_IsRoot refl refl refl
