-- ===== src/Topic/Matching/Templates.antt =====
-- `matches` from a concrete path to a template path, which the code asks of `matches_template` with
-- the two sides exchanged.
use rust_node.Base.{
  String, str_eq, eq_iff, ◌≡◌, refl, sym, ap, ◌∙◌, true, false, List, [], ◌∷◌, map, leb, length,
  length-map, any, ok, All, if◌then◌else◌, ◌==◌, Bool-cases, inl, inr, arith,
}
use rust_node.Topic.Segment.{
  PathSegment, literal, template, single_wildcard, multi_wildcard, is_template, is_template_param,
  to_string,
}
use rust_node.Topic.Segment.Laws.{IsCanonical, is_template_param_braced}
use rust_node.Topic.Consistent.{new-IsConsistent}
use rust_node.Topic.Pieces.{IsCut, new-IsCut, split_nonempty-action_path_of}
use rust_node.Topic.Reprint.{IsNetwork, new-path}
use rust_node.Topic.Template.{match_segments, matches_template}
use rust_node.Topic.Matching.{matches}
use rust_node.Topic.{DefaultHasher, TopicPath, new, get_segments}

plain_text :
    (p : PathSegment)
    → IsCanonical p
    → is_template p ≡ false
    → is_template_param (to_string p) ≡ false
unfolding is_template to_string is_template_param
plain_text (literal s) h n = h.2
plain_text (template name) h n = cc
plain_text single_wildcard h n = refl
plain_text multi_wildcard h n = refl

template_text : (r : PathSegment) → is_template r ≡ true → is_template_param (to_string r) ≡ true
unfolding to_string is_template
template_text (literal s) h = cc
template_text (template name) h = is_template_param_braced name
template_text single_wildcard h = cc
template_text multi_wildcard h = cc

-- A template segment is never the text of a segment that is none.
match_none :
    (ps qs : List PathSegment)
    → All IsCanonical ps
    → length ps ≡ length qs
    → any is_template ps ≡ false
    → any is_template qs ≡ true
    → match_segments (map to_string ps) (map to_string qs) ≡ false
unfolding match_segments is_template
match_none [] [] c l n t = cc
match_none [] (q ∷ qs) c l n t = ground arith
match_none (p ∷ ps) [] c l n t = ground arith
match_none (p ∷ ps) (q ∷ qs) c l n t = ground (
  arith,
  plain_text p c.0,
  eq_iff (to_string p) (to_string q),
  ap is_template_param {x = to_string p} {y = to_string q},
  template_text q,
  match_none ps qs c.1,
)

filled : (ps : List PathSegment) → any is_template ps ≡ true → (0 == length ps) ≡ false
filled [] t = cc
filled (p ∷ ps) t = ground arith

module _ ⦃hasher : DefaultHasher⦄ where
  exchanged :
      (tp topic : TopicPath)
      → IsCut tp
      → any is_template tp.segments ≡ false
      → any is_template topic.segments ≡ true
      → topic.has_templates ≡ true
      → topic.segment_count ≡ length topic.segments
      → matches_template topic tp.cached_action_path ≡ false
  unfolding matches_template get_segments
  exchanged tp topic v n t has count =
      rw (has, v.printed, split_nonempty-action_path_of tp.segments v.pieces)
        (elim (Bool-cases (leb (length tp.segments) 1)) [
          | inl e ↦ rw e (alone topic.segments)
          | inr e ↦ rw e (
              ground (
                arith,
                count,
                length-map to_string tp.segments,
                match_none tp.segments topic.segments v.canonical,
              ))
        ])
    where
      alone :
          (ps : List PathSegment)
          → (if 0 == topic.segment_count then match_segments [] (map to_string ps) else false)
            ≡ false
      alone ps = ground (arith, count, filled topic.segments t)

  -- Of two paths that `new` accepts under networks with a name and no colon, one with no template
  -- never matches one with a template: the code takes the concrete path for the template.
  matches-has_templates :
      (p q default_network other : String) (tp topic : TopicPath)
      → IsNetwork default_network
      → IsNetwork other
      → new p default_network ≡ ok tp
      → new q other ≡ ok topic
      → tp.has_templates ≡ false
      → topic.has_templates ≡ true
      → matches tp topic ≡ false
  unfolding matches
  matches-has_templates p q default_network other tp topic n m h k plain has =
      elim (Bool-cases (str_eq tp.path topic.path)) [
        | inl e ↦ cc (
          new-path p default_network default_network tp n h,
          ap (λ t. new t default_network) ((eq_iff tp.path topic.path).0 e),
          new-path q other default_network topic m k,
          plain,
          has,
        )
        | inr e ↦ ground (
          arith,
          e,
          plain,
          has,
          exchanged tp topic (new-IsCut p default_network tp h)
              (sym (new-IsConsistent p default_network tp h).templates ∙ plain)
              (sym (new-IsConsistent q other topic k).templates ∙ has) has
              (new-IsConsistent q other topic k).count,
        )
      ]
