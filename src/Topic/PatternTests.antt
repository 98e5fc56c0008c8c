-- ===== src/Topic/PatternTests.antt =====
-- Runs of templates and of matching, and the theorems about them at concrete inputs.
use rust_node.Base.{
  String, eq_iff, ◌≡◌, refl, subst, true, false, ◌||◌, [], ◌∷◌, map, any, length, ok, err, some,
  none, if◌then◌else◌, arith, str_eq, Bool-cases, inl, inr,
}
use rust_node.Base.Assoc.{lookup, insert}
use rust_node.Text.{contains_char, split_nonempty, join, inner, is_empty}
use rust_node.Text.Laws.{IsPiece}
use rust_node.Topic.Segment.{
  literal, template, single_wildcard, multi_wildcard, from_str, to_string, is_template_param,
  is_multi_wildcard, segment_eq,
}
use rust_node.Topic.Reprint.{IsNetwork}
use rust_node.Topic.Template.{
  Params, extract_params, extract_segments, extract_segment, matches_template, match_segments,
  from_template, fill_segments, fill_segment,
}
use rust_node.Topic.Template.Filling.{names, extract_params-from_template}
use rust_node.Topic.Matching.{
  matches, segments_match, all_match, prefix_matches, prefix_match, segment_match, ends_in_multi,
  has_multi_wildcard, any_multi_from, has_segment_type,
}
use rust_node.Topic.Matching.Laws.{segments_match-covers}
use rust_node.Trie.Entries.{covers, pattern_of}
use rust_node.Topic.{
  DefaultHasher, TopicPath, new, split_network, some_segments, scan, scan_segment, scan_kind,
  assemble, first_text, action_path_of, get_segments, missing_parameter, count_mismatch,
}

instance abbrev counting : DefaultHasher
counting = record { finish = λ ws. length ws }

runs : Unit {0}
unfolding new split_network some_segments split_nonempty scan scan_segment scan_kind assemble
    first_text action_path_of from_str get_segments extract_params extract_segments extract_segment
    matches_template match_segments from_template fill_segments fill_segment matches segments_match
    all_match prefix_matches prefix_match segment_match ends_in_multi has_multi_wildcard
    any_multi_from has_segment_type lookup insert is_template_param segment_eq inner join
    contains_char to_string is_multi_wildcard
runs = tt

abbrev login : TopicPath
login = record {
  path = "main:auth/login";
  network_id = "main";
  segments = literal "auth" ∷ literal "login" ∷ [];
  is_pattern = false;
  has_templates = false;
  service_path = "auth";
  cached_action_path = "auth/login";
  segment_count = 2;
  hash_components = 2 ∷ 2 ∷ [];
  segment_type_bitmap = 0;
}

abbrev any_action : TopicPath
any_action = record {
  path = "main:auth/{action}";
  network_id = "main";
  segments = literal "auth" ∷ template "action" ∷ [];
  is_pattern = false;
  has_templates = true;
  service_path = "auth";
  cached_action_path = "auth/{action}";
  segment_count = 2;
  hash_components = 2 ∷ 2 ∷ [];
  segment_type_bitmap = 4;
}

new_runs : (new "auth/login" "main" ≡ ok login) × (new "auth/{action}" "main" ≡ ok any_action)
unfolding runs
new_runs = (refl, refl)

template_runs :
    (extract_params login "auth/{action}" ≡ ok (("action", "login") ∷ []))
    × (extract_params login "auth" ≡ err (count_mismatch 2 1))
    × (matches_template login "auth/{action}" ≡ true)
    × (from_template "auth/{action}" (("action", "login") ∷ []) "main" ≡ ok login)
    × (from_template "auth/{action}" [] "main" ≡ err (missing_parameter "action"))
unfolding runs
template_runs = (refl, refl, refl, refl, refl)

piece : (s : String) → is_empty s ≡ false → contains_char b'/' s ≡ false → IsPiece b'/' s
piece s f w = record { filled = f; whole = w }

abbrev to_login : Params
to_login = ("action", "login") ∷ []

to_login-good :
    (name value : String)
    → lookup name to_login ≡ some value
    → IsPiece b'/' value × (contains_char b':' value ≡ false)
unfolding lookup contains_char
to_login-good name value h = elim (Bool-cases (str_eq "action" name)) [
  | inl e ↦
      let same : "login" ≡ value = cc (rw e at h) in
      subst (λ v. IsPiece b'/' v × (contains_char b':' v ≡ false)) same
        (piece "login" refl refl, refl)
  | inr e ↦ cc (rw e at h)
]

extract_params-from_template_example :
    (found : Params) × (extract_params login "auth/{action}" ≡ ok found)
    × ((name : String)
        → lookup name found ≡ (
            if any (names name) (split_nonempty b'/' "auth/{action}")
            then lookup name to_login
            else none))
unfolding runs
extract_params-from_template_example =
    extract_params-from_template "auth/{action}" "main" to_login login (refl, (refl, tt))
      to_login-good refl

segments_match-covers_example :
    (segments_match (literal "a" ∷ single_wildcard ∷ []) (map literal ("a" ∷ "b" ∷ []))
      ≡ covers (pattern_of ("a" ∷ "*" ∷ [])) ("a" ∷ "b" ∷ []))
    × (segments_match
          (literal "a" ∷ single_wildcard ∷ multi_wildcard ∷ [])
          (map literal ("a" ∷ "b" ∷ []))
        ≡ (covers (pattern_of ("a" ∷ "*" ∷ ">" ∷ [])) ("a" ∷ "b" ∷ [])
            || covers (pattern_of ("a" ∷ "*" ∷ [])) ("a" ∷ "b" ∷ [])))
unfolding is_multi_wildcard to_string is_template_param
segments_match-covers_example =
    segments_match-covers (literal "a" ∷ single_wildcard ∷ []) ("a" ∷ "b" ∷ [])
      ((ground (arith, eq_iff "a" "*"), ground (arith, eq_iff "a" ">"), refl), (tt, tt)) refl

main_IsNetwork : IsNetwork "main"
unfolding contains_char
main_IsNetwork = record { filled = refl; plain = refl }
