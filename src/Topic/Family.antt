-- ===== src/Topic/Family.antt =====
-- src/routing/mod.rs: `child`, `parent` and `starts_with` of `TopicPath`.
pub mod Children
pub mod Laws
use rust_node.Base.{
  ℕ, zero, suc, ◌+◌, ◌-◌, ◌==◌, leb, String, str_eq, Bool, true, false, ◌&&◌, ◌||◌, List, [], ◌∷◌,
  ◌++◌, map, length, init, Result, ok, ◌>>◌, fail_if, if◌then◌else◌,
}
use rust_node.Text
use rust_node.Text.{◌⧺◌, is_empty, contains_char, join}
use rust_node.Topic.Segment.{PathSegment, from_str, to_string, is_wildcard, is_template}
use rust_node.Topic.Bitmap.{
  segment_type_template, segment_type_single_wildcard, segment_type_multi_wildcard,
  set_segment_type, clear_segment_type, get_segment_type,
}
use rust_node.Topic.{TopicPath, TopicError, child_with_slash, no_parent, segment_type}

unfoldable pub starts_with : TopicPath → TopicPath → Bool
starts_with tp other =
    str_eq tp.network_id other.network_id && Text.starts_with tp.service_path other.service_path

-- The record that `child` returns for the new segment and the new path's text.
unfoldable pub extend : TopicPath → PathSegment → String → TopicPath
extend tp p text = record {
  path = tp.network_id ⧺ ":" ⧺ text;
  network_id = tp.network_id;
  segments = tp.segments ++ p ∷ [];
  is_pattern = tp.is_pattern || is_wildcard p;
  has_templates = tp.has_templates || is_template p;
  service_path = tp.service_path;
  cached_action_path = text;
  segment_count = tp.segment_count + 1;
  hash_components = [];
  segment_type_bitmap = set_segment_type tp.segment_type_bitmap tp.segment_count (segment_type p);
}

-- The text of a child's path: a service alone has no cached action path.
unfoldable pub child_text : TopicPath → String → String
child_text tp segment =
    if is_empty tp.cached_action_path
    then tp.service_path ⧺ "/" ⧺ segment
    else tp.cached_action_path ⧺ "/" ⧺ segment

unfoldable pub child : TopicPath → String → Result TopicPath TopicError
child tp segment = do
  fail_if (contains_char b'/' segment) child_with_slash
  ok (extend tp (from_str segment) (child_text tp segment))

-- The loop of `parent` over `0..n`: the flags (is_pattern, has_templates) by the types' codes.
unfoldable pub flag_type : ℕ → Bool × Bool → Bool × Bool
flag_type t (pattern, templates) =
    if t == segment_type_single_wildcard || t == segment_type_multi_wildcard
    then (true, templates)
    else if t == segment_type_template
    then (pattern, true)
    else (pattern, templates)

unfoldable pub flag_types : ℕ → ℕ → ℕ → Bool × Bool → Bool × Bool
flag_types bitmap i zero flags = flags
flag_types bitmap i (suc n) flags =
    flag_types bitmap (suc i) n (flag_type (get_segment_type bitmap i) flags)

-- The record that `parent` returns for the segments left and the bitmap without the last.
unfoldable pub shrink : TopicPath → List PathSegment → ℕ → TopicPath
shrink tp ps bitmap =
    let text = join "/" (map to_string ps) in
    let (pattern, templates) = flag_types bitmap 0 (length ps) (false, false) in
    record {
      path = tp.network_id ⧺ ":" ⧺ text;
      network_id = tp.network_id;
      segments = ps;
      is_pattern = pattern;
      has_templates = templates;
      service_path = tp.service_path;
      cached_action_path = text;
      segment_count = tp.segment_count - 1;
      hash_components = [];
      segment_type_bitmap = bitmap;
    }

-- `segment_count` is the length of `segments`, so the subtractions of 1 do not wrap.
unfoldable pub parent : TopicPath → Result TopicPath TopicError
parent tp = do
  fail_if (leb (length tp.segments) 1) no_parent
  ok (
      shrink tp (init tp.segments)
        (clear_segment_type tp.segment_type_bitmap (tp.segment_count - 1)))
