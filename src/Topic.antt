-- ===== src/Topic.antt =====
-- src/routing/mod.rs: `TopicPath` and its constructors. `anyhow` texts of errors are constructors
-- of `TopicError`; a text that quotes its input keeps it where a caller could read it.
pub mod Segment
pub mod Bitmap
pub mod Scanning
pub mod Parse
pub mod Reprint
pub mod Consistent
pub mod Pieces
pub mod Family
pub mod Identity
pub mod Template
pub mod Matching
mod Tests
mod PatternTests
use rust_node.Base.{
  ℕ, suc, ◌+◌, ◌-◌, ltb, leb, String, Bool, true, false, List, [], ◌∷◌, ◌++◌, map, length, Result,
  ok, err, ◌>>=◌, ◌>>◌, fail_if, if◌then◌else◌,
}
use rust_node.Text.{◌⧺◌, is_empty, contains_char, split, split_nonempty, join}
use Segment.{
  PathSegment, literal, template, single_wildcard, multi_wildcard, from_str, to_string, HashWrite,
  hash_writes,
}
use Bitmap.{
  segment_type_literal, segment_type_template, segment_type_single_wildcard,
  segment_type_multi_wildcard, set_segment_type,
}

pub record TopicPath : Type 0 where
  pub path : String
  pub network_id : String
  pub segments : List PathSegment
  pub is_pattern : Bool
  pub has_templates : Bool
  pub service_path : String
  pub cached_action_path : String
  pub segment_count : ℕ
  pub hash_components : List ℕ
  pub segment_type_bitmap : ℕ

pub data TopicError : Type 0 where
  invalid_format empty_network_id no_segments multi_wildcard_not_last : TopicError
  nested_action child_with_slash no_parent : TopicError
  count_mismatch : ℕ → ℕ → TopicError
  segment_mismatch : String → String → TopicError
  missing_parameter : String → TopicError

-- `DefaultHasher` of the standard library: what `finish` gives after a sequence of writes.
pub record DefaultHasher : Type 0 where
  pub finish : List HashWrite → ℕ

-- The two-bit code of a segment's kind, as `child` picks it.
abbrev pub segment_type : PathSegment → ℕ
segment_type (literal s) = segment_type_literal
segment_type (template s) = segment_type_template
segment_type single_wildcard = segment_type_single_wildcard
segment_type multi_wildcard = segment_type_multi_wildcard

-- The part of `new` that finds the network and the rest of the path.
two_parts : List String → Result (String × String) TopicError
two_parts (network ∷ rest ∷ []) = fail_if (is_empty network) empty_network_id >> ok (network, rest)
two_parts _ = err invalid_format

unfoldable pub split_network : String → String → Result (String × String) TopicError
unfolding contains_char split two_parts
split_network path default_network =
    if contains_char b':' path then two_parts (split b':' path) else ok (default_network, path)

-- The variables of the loop over the segments.
pub record Scan : Type 0 where
  pub segments : List PathSegment
  pub is_pattern : Bool
  pub has_templates : Bool
  pub hash_components : List ℕ
  pub segment_type_bitmap : ℕ

abbrev pub scan_start : Scan
scan_start = record {
  segments = [];
  is_pattern = false;
  has_templates = false;
  hash_components = [];
  segment_type_bitmap = 0;
}

-- The `match` of the loop body: flags, the check of a multi-wildcard's place, the bitmap.
unfoldable pub scan_kind : ℕ → ℕ → PathSegment → Scan → Result Scan TopicError
unfolding set_segment_type
scan_kind total i single_wildcard st = ok (record st {
  is_pattern = true;
  segment_type_bitmap = set_segment_type st.segment_type_bitmap i segment_type_single_wildcard;
})
scan_kind total i multi_wildcard st =
    fail_if (ltb i (total - 1)) multi_wildcard_not_last
    >> ok (record st {
      is_pattern = true;
      segment_type_bitmap = set_segment_type st.segment_type_bitmap i segment_type_multi_wildcard;
    })
scan_kind total i (template name) st = ok (record st {
  has_templates = true;
  segment_type_bitmap = set_segment_type st.segment_type_bitmap i segment_type_template;
})
scan_kind total i (literal text) st = ok (record st {
  segment_type_bitmap = set_segment_type st.segment_type_bitmap i segment_type_literal;
})

-- The text of the first segment; the code reads `segments[0]`, which is there.
unfoldable pub first_text : List PathSegment → String
unfolding to_string
first_text [] = ""
first_text (p ∷ ps) = to_string p

-- "" for a service alone, else all segments.
unfoldable pub action_path_of : List PathSegment → String
unfolding join to_string
action_path_of ps = if leb (length ps) 1 then "" else join "/" (map to_string ps)

-- Paths must have at least one segment.
unfoldable pub some_segments : List String → Result (List String) TopicError
some_segments [] = err no_segments
some_segments (s ∷ ss) = ok (s ∷ ss)

module _ ⦃hasher : DefaultHasher⦄ where
  unfoldable pub scan_segment : ℕ → ℕ → PathSegment → Scan → Result Scan TopicError
  unfolding scan_kind hash_writes
  scan_segment total i p st = do
    st' ← scan_kind total i p st
    ok (record st' {
      segments = st'.segments ++ p ∷ [];
      hash_components = st'.hash_components ++ hasher.finish (hash_writes p) ∷ [];
    })

  unfoldable pub scan : ℕ → ℕ → List String → Scan → Result Scan TopicError
  scan total i [] st = ok st
  scan total i (s ∷ rest) st = do
    st' ← scan_segment total i (from_str s) st
    scan total (suc i) rest st'

  -- The record that `new` builds from the network, the rest of the text and the loop's variables.
  unfoldable pub assemble : String → String → Scan → TopicPath
  assemble network rest st = record {
    path = network ⧺ ":" ⧺ rest;
    network_id = network;
    segments = st.segments;
    is_pattern = st.is_pattern;
    has_templates = st.has_templates;
    service_path = first_text st.segments;
    cached_action_path = action_path_of st.segments;
    segment_count = length st.segments;
    hash_components = st.hash_components;
    segment_type_bitmap = st.segment_type_bitmap;
  }

  unfoldable pub new : String → String → Result TopicPath TopicError
  new path default_network = do
    (network, rest) ← split_network path default_network
    parts ← some_segments (split_nonempty b'/' rest)
    st ← scan (length parts) 0 parts scan_start
    ok (assemble network rest st)

  unfoldable pub new_action_topic : TopicPath → String → Result TopicPath TopicError
  new_action_topic tp action_name = do
    fail_if (ltb 1 (length tp.segments)) nested_action
    new (tp.network_id ⧺ ":" ⧺ tp.service_path ⧺ "/" ⧺ action_name) tp.network_id

  unfoldable pub new_event_topic : TopicPath → String → Result TopicPath TopicError
  new_event_topic tp event_name = do path ← new_action_topic tp event_name; ok path

unfoldable pub new_service : String → String → TopicPath
new_service network service_name = record {
  path = network ⧺ ":" ⧺ service_name;
  network_id = network;
  segments = literal service_name ∷ [];
  is_pattern = false;
  has_templates = false;
  service_path = service_name;
  cached_action_path = "";
  segment_count = 1;
  hash_components = [];
  segment_type_bitmap = 0;
}

-- `get_segments`
unfoldable pub get_segments : TopicPath → List String
unfolding to_string
get_segments tp = map to_string tp.segments
