-- ===== src/Topic/Template.antt =====
-- src/routing/mod.rs: `extract_params`, `matches_template` and `from_template` of `TopicPath`.
pub mod Laws
pub mod Filling
use rust_node.Base.{
  ℕ, ◌==◌, String, str_eq, Bool, true, false, ◌&&◌, ◌||◌, not, List, [], ◌∷◌, map, length, Option,
  none, some, Result, ok, err, ◌>>=◌, ◌>>◌, fail_if, if◌then◌else◌,
}
use rust_node.Base.Assoc.{lookup, insert}
use rust_node.Text
use rust_node.Text.{contains_char, split_nonempty, join, inner}
use rust_node.Topic.Segment.{PathSegment, literal, to_string, is_template_param}
use rust_node.Topic.{
  TopicPath, TopicError, count_mismatch, segment_mismatch, missing_parameter, DefaultHasher, new,
  get_segments,
}

-- A `HashMap<String, String>` of parameters.
abbrev pub Params : Type 0
Params = List (String × String)

-- The loop body of `extract_params`.
unfoldable pub extract_segment : String → String → Params → Result Params TopicError
extract_segment template_segment segment params =
    if is_template_param template_segment
    then ok (insert (inner template_segment) segment params)
    else if str_eq template_segment segment
    then ok params
    else err (segment_mismatch segment template_segment)

-- The loop, where both lists have the same length.
unfoldable pub extract_segments : List String → List String → Params → Result Params TopicError
extract_segments (t ∷ ts) (s ∷ ss) params = do
  params' ← extract_segment t s params
  extract_segments ts ss params'
extract_segments _ _ params = ok params

unfoldable pub extract_params : TopicPath → String → Result Params TopicError
extract_params tp template = do
  let path_segments = get_segments tp
  let template_segments = split_nonempty b'/' template
  fail_if (not (length path_segments == length template_segments))
      (count_mismatch (length path_segments) (length template_segments))
  extract_segments template_segments path_segments []

-- The loop of `matches_template`, where both lists have the same length.
unfoldable pub match_segments : List String → List String → Bool
match_segments (t ∷ ts) (s ∷ ss) = (is_template_param t || str_eq t s) && match_segments ts ss
match_segments _ _ = true

-- The test whether neither side has templates, where the texts decide.
abbrev pub is_plain : TopicPath → String → Bool
is_plain tp template = not tp.has_templates && not (contains_char b'{' template)

unfoldable pub matches_template : TopicPath → String → Bool
matches_template tp template =
    if is_plain tp template
    then Text.contains tp.path template
    else if length (split_nonempty b'/' template) == tp.segment_count
    then match_segments (split_nonempty b'/' template) (get_segments tp)
    else false

-- The value of a parameter, or the error that it is missing.
abbrev pub require : String → Option String → Result PathSegment TopicError
require name none = err (missing_parameter name)
require name (some value) = ok (literal value)

-- The loop body of `from_template`.
unfoldable pub fill_segment : Params → String → Result PathSegment TopicError
fill_segment params t =
    if is_template_param t then require (inner t) (lookup (inner t) params) else ok (literal t)

unfoldable pub fill_segments : Params → List String → Result (List PathSegment) TopicError
fill_segments params [] = ok []
fill_segments params (t ∷ ts) = do
  p ← fill_segment params t
  ps ← fill_segments params ts
  ok (p ∷ ps)

module _ ⦃hasher : DefaultHasher⦄ where
  unfoldable pub from_template : String → Params → String → Result TopicPath TopicError
  from_template template params network = do
    ps ← fill_segments params (split_nonempty b'/' template)
    new (join "/" (map to_string ps)) network
