-- ===== src/Trie/Tests.antt =====
-- Runs of the trie, and the theorems about it at concrete inputs.
use rust_node.Base.{ℕ, String, ◌≡◌, refl, false, List, [], ◌∷◌, ◌++◌, map, Perm, ◌==◌, length}
use rust_node.Base.Assoc.{lookup, insert, remove}
use rust_node.Topic.Segment.{literal, to_string, is_template_param}
use rust_node.Topic.{TopicPath, get_segments}
use rust_node.Trie.Entries.{
  key_eq, exactly, any_one, parameter, all_left, pattern_of, covers, entries, IsTrie, keys_eq,
}
use rust_node.Trie.Picking.{selected}
use rust_node.Trie.Selection.{collect_wildcard_matches-contents}
use rust_node.Trie.Insert.{set_values_internal-adds}
use rust_node.Trie.WellFormed.{new_trie-IsTrie, set_values_internal-IsTrie}
use rust_node.Trie.Search.{
  find, find_matches, find_matches_internal, no_params, find_wildcard_matches, visit_template,
  collect_wildcard_matches, collect_children, collect_all_handlers,
}
use rust_node.Trie.Lookup.{find_matches_internal-eq, matches_below}
use rust_node.Trie.Contents.{contents, find_matches_internal-contents}
use rust_node.Trie.Routing.{reaches, register_all, reaching, find-register_all}
use rust_node.Trie.RemoveValues.{
  fill, removed_pattern, remove_values_internal-drops, remove_values_internal_multi_wildcard,
}
use rust_node.Trie.RemoveHandler.{remove_handler_internal-drops}
use rust_node.Trie.Removal.{
  remove_handler, remove_handler_internal, remove_handler_step, retain, try_child, try_entry,
}
use rust_node.Trie.{
  PathTrie, new_trie, get_child, set_values, set_values_internal, set_step, upsert_child,
  extract_param_name, remove_values, remove_values_internal, remove_step, modify_child,
}

runs : Unit {0}
unfolding find find_matches find_matches_internal visit_template get_child get_segments to_string
    set_values set_values_internal set_step upsert_child extract_param_name remove_values
    remove_values_internal remove_step modify_child lookup insert remove remove_handler
    remove_handler_internal remove_handler_step retain try_child try_entry register_all reaching
    find_wildcard_matches collect_wildcard_matches collect_children collect_all_handlers
    is_template_param
runs = tt

-- A path of literals on the network "main".
abbrev plain : List String → TopicPath
plain ss = record {
  path = "";
  network_id = "main";
  segments = map literal ss;
  is_pattern = false;
  has_templates = false;
  service_path = "";
  cached_action_path = "";
  segment_count = length ss;
  hash_components = [];
  segment_type_bitmap = 0;
}

-- Handlers are numbers: 1 at "a/b", 2 at "a/*", 3 at "a/{x}", 4 at "a/>", 5 at "c".
abbrev table : List (TopicPath × List ℕ)
table =
    (plain ("a" ∷ "b" ∷ []), 1 ∷ [])
    ∷ (plain ("a" ∷ "*" ∷ []), 2 ∷ [])
    ∷ (plain ("a" ∷ "{x}" ∷ []), 3 ∷ [])
    ∷ (plain ("a" ∷ ">" ∷ []), 4 ∷ [])
    ∷ (plain ("c" ∷ []), 5 ∷ [])
    ∷ []

abbrev filled : PathTrie ℕ
filled = register_all table new_trie

find_runs :
    (find (plain ("a" ∷ "b" ∷ [])) filled ≡ 4 ∷ 1 ∷ 2 ∷ 3 ∷ [])
    × (find (plain ("a" ∷ "z" ∷ "y" ∷ [])) filled ≡ 4 ∷ [])
    × (find (plain ("c" ∷ [])) filled ≡ 5 ∷ [])
    × (find (plain ("a" ∷ "b" ∷ [])) (remove_values (plain ("a" ∷ "*" ∷ [])) filled)
        ≡ 4 ∷ 1 ∷ 3 ∷ [])
unfolding runs
find_runs = (refl, refl, refl, refl)

find-register_all_example : Perm (find (plain ("a" ∷ "b" ∷ [])) filled) (1 ∷ 2 ∷ 3 ∷ 4 ∷ [])
unfolding reaching reaches covers pattern_of get_segments to_string is_template_param register_all
find-register_all_example = find-register_all (plain ("a" ∷ "b" ∷ [])) table refl

-- The network's trie, filled in the same order.
abbrev below : PathTrie ℕ
below = set_values_internal ("a" ∷ ">" ∷ []) (3 ∷ []) (
    set_values_internal ("a" ∷ "{x}" ∷ []) (2 ∷ [])
      (set_values_internal ("a" ∷ "b" ∷ []) (1 ∷ []) new_trie))

below-IsTrie : IsTrie below
below-IsTrie = set_values_internal-IsTrie ("a" ∷ ">" ∷ []) (3 ∷ []) _ (
    set_values_internal-IsTrie ("a" ∷ "{x}" ∷ []) (2 ∷ []) _
      (set_values_internal-IsTrie ("a" ∷ "b" ∷ []) (1 ∷ []) new_trie (new_trie-IsTrie ℕ)))

find_matches_internal-eq_example :
    find_matches_internal ("a" ∷ "b" ∷ []) below ([], ("x", "old") ∷ [])
    ≡ (matches_below ("a" ∷ "b" ∷ []) (("x", "old") ∷ []) below, ("x", "old") ∷ [])
find_matches_internal-eq_example =
    find_matches_internal-eq ("a" ∷ "b" ∷ []) below [] (("x", "old") ∷ [])

find_matches_internal-contents_example :
    contents (find_matches_internal ("a" ∷ "b" ∷ []) below ([], no_params)).0 ≡ 3 ∷ 1 ∷ 2 ∷ []
unfolding entries covers runs is_template_param contents
find_matches_internal-contents_example =
    find_matches_internal-contents ("a" ∷ "b" ∷ []) below [] no_params below-IsTrie

set_values_internal-adds_example :
    Perm
      (entries (set_values_internal ("a" ∷ "*" ∷ []) (4 ∷ []) below))
      (entries below ++ (exactly "a" ∷ any_one ∷ [], 4) ∷ [])
unfolding pattern_of is_template_param
set_values_internal-adds_example = set_values_internal-adds ("a" ∷ "*" ∷ []) (4 ∷ []) below

remove_values_internal-drops_example :
    entries (remove_values_internal ("a" ∷ "{y}" ∷ []) below)
    ≡ (exactly "a" ∷ all_left ∷ [], 3) ∷ (exactly "a" ∷ exactly "b" ∷ [], 1) ∷ []
unfolding entries removed_pattern runs keys_eq
remove_values_internal-drops_example =
    remove_values_internal-drops ("a" ∷ "{y}" ∷ []) below below-IsTrie

remove_handler_internal-drops_example :
    entries (remove_handler_internal (λ h. h == 3) ("a" ∷ ">" ∷ []) below).0
    ≡ (exactly "a" ∷ exactly "b" ∷ [], 1) ∷ (exactly "a" ∷ parameter ∷ [], 2) ∷ []
unfolding entries pattern_of runs keys_eq
remove_handler_internal-drops_example =
    remove_handler_internal-drops (λ h. h == 3) ("a" ∷ ">" ∷ []) below below-IsTrie

abbrev registered : List (List String × List ℕ)
registered = ("a" ∷ ">" ∷ [], 3 ∷ []) ∷ []

remove_values_internal_multi_wildcard_example :
    entries (remove_values_internal ("a" ∷ ">" ∷ []) (fill registered)) ≡ entries (fill registered)
remove_values_internal_multi_wildcard_example =
    remove_values_internal_multi_wildcard ("a" ∷ ">" ∷ []) registered refl

-- A search by "a/*" leaves out the handler at "a/>", one by ">" gives all.
collect_wildcard_matches-contents_example :
    contents (collect_wildcard_matches ("a" ∷ "*" ∷ []) below []) ≡ 1 ∷ 2 ∷ []
unfolding selected entries runs contents is_template_param key_eq
collect_wildcard_matches-contents_example =
    collect_wildcard_matches-contents ("a" ∷ "*" ∷ []) below [] below-IsTrie
