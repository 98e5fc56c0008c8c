-- ===== src/Topic/Tests.antt =====
-- Runs of the routing paths, and the theorems about them at concrete inputs.
use rust_node.Base.{String, ◌≡◌, ◌≢◌, refl, true, false, [], ◌∷◌, length, ok, err}
use rust_node.Text.{contains_char, split_nonempty, join, ◌⧺◌, is_empty, inner}
use rust_node.Text.Laws.{IsPiece}
use rust_node.Topic.Segment.{
  literal, template, single_wildcard, multi_wildcard, from_str, is_wildcard, is_template,
  is_multi_wildcard, segment_eq,
}
use rust_node.Topic.Bitmap.{get_segment_type}
use rust_node.Topic.Scanning.{scan-eq, has_early_multi}
use rust_node.Topic.Parse.{new-format}
use rust_node.Topic.Reprint.{IsNetwork}
use rust_node.Topic.Consistent.{IsConsistent, new-IsConsistent}
use rust_node.Topic.Family.{child, child_text, extend, parent, shrink, flag_type, flag_types}
use rust_node.Topic.Family.Children.{child-early_multi}
use rust_node.Topic.Identity.{topic_eq, zip_eq, hash}
use rust_node.Topic.Identity.Laws.{hash-topic_eq, new_service-hash}
use rust_node.Topic.{
  new_service, TopicPath, multi_wildcard_not_last, no_segments, invalid_format, empty_network_id,
  DefaultHasher, new, split_network, some_segments, scan, scan_segment, scan_kind, scan_start,
  assemble, first_text, action_path_of, get_segments,
}

instance abbrev counting : DefaultHasher
counting = record { finish = λ ws. length ws }

runs : Unit {0}
unfolding new split_network some_segments split_nonempty scan scan_segment scan_kind assemble
    first_text action_path_of from_str get_segments child child_text extend parent shrink flag_type
    flag_types is_wildcard is_template inner get_segment_type
runs = tt

abbrev login : TopicPath
login = record {
  path = "main:auth/login";
  network_id = "main";
  segments = literal "auth" ∷ literal "login" ∷ [];
  is_pattern = false;
  has_templates = false;
  service_path = "auth";
  cached_action_path = "auth/login";
  segment_count = 2;
  hash_components = 2 ∷ 2 ∷ [];
  segment_type_bitmap = 0;
}

abbrev state_of_any : TopicPath
state_of_any = record {
  path = "main:{service}/*/>";
  network_id = "main";
  segments = template "service" ∷ single_wildcard ∷ multi_wildcard ∷ [];
  is_pattern = true;
  has_templates = true;
  service_path = "{service}";
  cached_action_path = "{service}/*/>";
  segment_count = 3;
  hash_components = 2 ∷ 1 ∷ 1 ∷ [];
  segment_type_bitmap = 57;
}

new_runs :
    (new "main:auth/login" "default" ≡ ok login)
    × (new "{service}/*/>" "main" ≡ ok state_of_any)
    × (new "main:a/>/b" "default" ≡ err multi_wildcard_not_last)
    × (new "a:b:c" "default" ≡ err invalid_format)
    × (new ":a" "default" ≡ err empty_network_id)
    × (new "main://" "default" ≡ err no_segments)
unfolding runs
new_runs = (refl, refl, refl, refl, refl, refl)

scan-eq_example : scan 2 0 (">" ∷ "a" ∷ []) scan_start ≡ err multi_wildcard_not_last
unfolding runs has_early_multi is_multi_wildcard
scan-eq_example = scan-eq 2 0 (">" ∷ "a" ∷ []) scan_start refl

piece : (s : String) → is_empty s ≡ false → contains_char b'/' s ≡ false → IsPiece b'/' s
piece s f w = record { filled = f; whole = w }

new-format_example :
    (tp : TopicPath) × (new ("main" ⧺ ":" ⧺ join "/" ("auth" ∷ "*" ∷ [])) "default" ≡ ok tp)
    × (get_segments tp ≡ "auth" ∷ "*" ∷ [])
    × (tp.network_id ≡ "main")
    × (tp.service_path ≡ "auth")
    × (tp.path ≡ "main" ⧺ ":" ⧺ join "/" ("auth" ∷ "*" ∷ []))
unfolding contains_char has_early_multi is_multi_wildcard from_str
new-format_example =
    new-format "main" "auth" ("*" ∷ []) "default" refl refl
      (piece "auth" refl refl, (piece "*" refl refl, tt)) (refl, (refl, tt)) refl

default_IsNetwork : IsNetwork "default"
unfolding contains_char
default_IsNetwork = record { filled = refl; plain = refl }

abbrev login_spaced : TopicPath
login_spaced = record login { path = "main:/auth//login" }

spaced_runs : new "/auth//login" "main" ≡ ok login_spaced
unfolding runs
spaced_runs = refl

main_IsNetwork : IsNetwork "main"
unfolding contains_char
main_IsNetwork = record { filled = refl; plain = refl }

hash-topic_eq_example : hash login ≡ hash login_spaced
unfolding topic_eq zip_eq segment_eq
hash-topic_eq_example =
    hash-topic_eq "main:auth/login" "/auth//login" "default" "main" login login_spaced
      default_IsNetwork main_IsNetwork new_runs.0 spaced_runs refl

new_service-hash_example :
    (tp : TopicPath) × (new ("main" ⧺ ":" ⧺ "auth") "default" ≡ ok tp)
    × (topic_eq tp (new_service "main" "auth") ≡ true)
    × (hash tp ≢ hash (new_service "main" "auth"))
unfolding contains_char
new_service-hash_example =
    new_service-hash "main" "auth" "default" refl refl (piece "auth" refl refl) refl

abbrev login_form : TopicPath
login_form = record {
  path = "main:auth/login/>";
  network_id = "main";
  segments = literal "auth" ∷ literal "login" ∷ multi_wildcard ∷ [];
  is_pattern = true;
  has_templates = false;
  service_path = "auth";
  cached_action_path = "auth/login/>";
  segment_count = 3;
  hash_components = [];
  segment_type_bitmap = 48;
}

child_runs :
    (child login ">" ≡ ok login_form)
    × (parent login_form ≡ ok (record login { hash_components = [] }))
unfolding runs
child_runs = (refl, refl)

login-IsConsistent : IsConsistent login
login-IsConsistent = new-IsConsistent "main:auth/login" "default" login new_runs.0

-- "main:auth/login/>" has a child.
abbrev past_the_end : TopicPath
past_the_end = record {
  path = "main:auth/login/>/x";
  network_id = "main";
  segments = literal "auth" ∷ literal "login" ∷ multi_wildcard ∷ literal "x" ∷ [];
  is_pattern = true;
  has_templates = false;
  service_path = "auth";
  cached_action_path = "auth/login/>/x";
  segment_count = 4;
  hash_components = [];
  segment_type_bitmap = 48;
}

past_the_end_runs : child login_form "x" ≡ ok past_the_end
unfolding runs
past_the_end_runs = refl

child-early_multi_example :
    (c : TopicPath) × (child login_form "x" ≡ ok c) × (login.segments ≢ c.segments)
unfolding runs
child-early_multi_example =
    child-early_multi login_form "x" "main:auth/login" "default" login refl refl new_runs.0
