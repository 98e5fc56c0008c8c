-- ===== src/Topic/Matching.antt =====
-- src/routing/mod.rs: `has_multi_wildcard`, `matches` and `segments_match` of `TopicPath`.
pub mod Laws
pub mod Templates
use rust_node.Base.{
  ℕ, ◌-◌, ◌==◌, ltb, leb, zero, suc, String, str_eq, Bool, true, false, ◌&&◌, ◌||◌, not, List, [],
  ◌∷◌, length, last, init, any, Option, none, some, if◌then◌else◌,
}
use rust_node.Topic.Segment.{
  PathSegment, literal, template, single_wildcard, multi_wildcard, is_multi_wildcard, segment_eq,
}
use rust_node.Topic.Bitmap.{get_segment_type, segment_type_multi_wildcard}
use rust_node.Topic.Template.{matches_template}
use rust_node.Topic.{TopicPath}

unfoldable pub has_segment_type : TopicPath → ℕ → ℕ → Bool
has_segment_type tp index t =
    if leb tp.segment_count index then false else get_segment_type tp.segment_type_bitmap index == t

-- The loop of `has_multi_wildcard` over the indices from `i` on.
unfoldable pub any_multi_from : TopicPath → ℕ → ℕ → Bool
any_multi_from tp i zero = false
any_multi_from tp i (suc n) =
    has_segment_type tp i segment_type_multi_wildcard || any_multi_from tp (suc i) n

unfoldable pub has_multi_wildcard : TopicPath → Bool
has_multi_wildcard tp = any_multi_from tp 0 tp.segment_count

-- One segment before a final multi-wildcard. A multi-wildcard there is unreachable in the code.
unfoldable pub prefix_match : PathSegment → PathSegment → Bool
prefix_match (literal p) (literal t) = str_eq p t
prefix_match (template p) (literal t) = true
prefix_match single_wildcard t = true
prefix_match _ _ = false

-- The loop before a final multi-wildcard: the topic has at least as many segments.
unfoldable pub prefix_matches : List PathSegment → List PathSegment → Bool
prefix_matches (p ∷ ps) (t ∷ ts) = prefix_match p t && prefix_matches ps ts
prefix_matches _ _ = true

-- The match that is reached when the two segments differ.
abbrev pub kind_match : PathSegment → PathSegment → Bool
kind_match (template p) (literal t) = true
kind_match single_wildcard t = true
kind_match _ _ = false

unfoldable pub segment_match : PathSegment → PathSegment → Bool
segment_match p t = segment_eq p t || kind_match p t

-- The loop over two lists of the same length.
unfoldable pub all_match : List PathSegment → List PathSegment → Bool
all_match (p ∷ ps) (t ∷ ts) = segment_match p t && all_match ps ts
all_match _ _ = true

-- `Some(PathSegment::MultiWildcard) = segments.last()`
unfoldable pub ends_in_multi : List PathSegment → Bool
ends_in_multi [] = false
ends_in_multi (p ∷ []) = is_multi_wildcard p
ends_in_multi (p ∷ q ∷ ps) = ends_in_multi (q ∷ ps)

unfoldable pub segments_match : List PathSegment → List PathSegment → Bool
segments_match pattern topic =
    if ends_in_multi pattern
    then (if ltb (length topic) (length pattern - 1)
        then false
        else prefix_matches (init pattern) topic)
    else if length pattern == length topic
    then all_match pattern topic
    else false

unfoldable pub matches : TopicPath → TopicPath → Bool
matches tp topic =
    if not (str_eq tp.network_id topic.network_id)
    then false
    else if str_eq tp.path topic.path
    then true
    else if not (tp.segment_count == topic.segment_count) && not (has_multi_wildcard tp)
    then false
    else if not tp.is_pattern
        && (not topic.is_pattern && (not tp.has_templates && not topic.has_templates))
    then false
    else if tp.has_templates && not topic.has_templates
    then false
    else if not tp.has_templates && topic.has_templates
    then matches_template topic tp.cached_action_path
    else segments_match tp.segments topic.segments
