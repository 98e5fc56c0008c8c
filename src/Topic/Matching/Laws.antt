-- ===== src/Topic/Matching/Laws.antt =====
-- `matches` against the trie's reading of a pattern, and what it makes of templates.
use rust_node.Base.{
  ℕ, suc, ◌+◌, ◌==◌, ltb, ◌≤◌, String, str_eq, eq_iff, ◌≡◌, refl, ap, ◌∙◌, true, false, ◌&&◌, ◌||◌,
  List, [], ◌∷◌, ◌++◌, map, length, any, All, arith, length-map, length-append, init-concat,
}
use rust_node.Text.{◌⧺◌}
use rust_node.Topic.Segment.{
  PathSegment, literal, template, single_wildcard, multi_wildcard, is_multi_wildcard, segment_eq,
  to_string, is_template_param,
}
use rust_node.Topic.Segment.Laws.{IsCanonical, is_template_param_braced}
use rust_node.Topic.Bitmap.{segment_type_multi_wildcard}
use rust_node.Topic.Consistent.{IsConsistent, EncodesFrom}
use rust_node.Topic.Matching.{
  has_segment_type, any_multi_from, has_multi_wildcard, prefix_match, prefix_matches, segment_match,
  all_match, ends_in_multi, segments_match,
}
use rust_node.Topic.{TopicPath, segment_type}
use rust_node.Trie.Entries.{Key, exactly, any_one, parameter, all_left, pattern_of, covers}

multi_type :
    (p : PathSegment) → (segment_type p == segment_type_multi_wildcard) ≡ is_multi_wildcard p
unfolding is_multi_wildcard
multi_type (literal s) = refl
multi_type (template s) = refl
multi_type single_wildcard = refl
multi_type multi_wildcard = refl

any_multi_from-eq :
    (tp : TopicPath) (i : ℕ) (ps : List PathSegment)
    → i + length ps ≤ tp.segment_count
    → EncodesFrom tp.segment_type_bitmap i ps
    → any_multi_from tp i (length ps) ≡ any is_multi_wildcard ps
unfolding any_multi_from has_segment_type
any_multi_from-eq tp i [] h e = refl
any_multi_from-eq tp i (p ∷ ps) h e =
    ground (arith, multi_type p, e.0, any_multi_from-eq tp (suc i) ps (omega arith) e.1)

-- The loop over the bitmap finds a multi-wildcard exactly where the segments have one, in a path of
-- at most 32 segments whose caches and bitmap agree with them.
has_multi_wildcard-eq :
    (tp : TopicPath)
    → IsConsistent tp
    → length tp.segments ≤ 32
    → EncodesFrom tp.segment_type_bitmap 0 tp.segments
    → has_multi_wildcard tp ≡ any is_multi_wildcard tp.segments
unfolding has_multi_wildcard
has_multi_wildcard-eq tp v room coded =
    ap (any_multi_from tp 0) v.count
    ∙ any_multi_from-eq tp 0 tp.segments (omega (arith, v.count)) coded

-- The trie's key for a segment that is not a multi-wildcard.
key : PathSegment → Key
key (literal s) = exactly s
key (template name) = parameter
key single_wildcard = any_one
key multi_wildcard = all_left

braced_plain :
    (name : String)
    → (str_eq ("{" ⧺ name ⧺ "}") ">" ≡ false) × (str_eq ("{" ⧺ name ⧺ "}") "*" ≡ false)
unfolding is_template_param
braced_plain name = (
  ground (
    arith,
    eq_iff ("{" ⧺ name ⧺ "}") ">",
    ap is_template_param {x = "{" ⧺ name ⧺ "}"} {y = ">"},
    is_template_param_braced name,
  ),
  ground (
    arith,
    eq_iff ("{" ⧺ name ⧺ "}") "*",
    ap is_template_param {x = "{" ⧺ name ⧺ "}"} {y = "*"},
    is_template_param_braced name,
  ),
)

pattern_of-to_string :
    (p : PathSegment) (rest : List String)
    → IsCanonical p
    → is_multi_wildcard p ≡ false
    → pattern_of (to_string p ∷ rest) ≡ key p ∷ pattern_of rest
unfolding pattern_of key to_string is_multi_wildcard
pattern_of-to_string (literal s) rest h n =
    ground (arith, h.0, h.1, h.2, eq_iff s "*", eq_iff s ">")
pattern_of-to_string (template name) rest h n =
    ground (arith, braced_plain name, is_template_param_braced name)
pattern_of-to_string single_wildcard rest h n = refl
pattern_of-to_string multi_wildcard rest h n = cc

covers-key :
    (p : PathSegment) (ks : List Key) (s : String) (ss : List String)
    → is_multi_wildcard p ≡ false
    → covers (key p ∷ ks) (s ∷ ss) ≡ (segment_match p (literal s) && covers ks ss)
unfolding covers key segment_match segment_eq is_multi_wildcard
covers-key (literal t) ks s ss n = ground arith
covers-key (template name) ks s ss n = refl
covers-key single_wildcard ks s ss n = refl
covers-key multi_wildcard ks s ss n = cc

prefix_match-eq :
    (p : PathSegment) (s : String)
    → is_multi_wildcard p ≡ false
    → prefix_match p (literal s) ≡ segment_match p (literal s)
unfolding prefix_match segment_match segment_eq is_multi_wildcard
prefix_match-eq (literal t) s n = ground arith
prefix_match-eq (template name) s n = refl
prefix_match-eq single_wildcard s n = refl
prefix_match-eq multi_wildcard s n = cc

prefix_matches-eq :
    (ps : List PathSegment) (ss : List String)
    → any is_multi_wildcard ps ≡ false
    → prefix_matches ps (map literal ss) ≡ all_match ps (map literal ss)
unfolding prefix_matches all_match
prefix_matches-eq [] ss n = refl
prefix_matches-eq (p ∷ ps) [] n = refl
prefix_matches-eq (p ∷ ps) (s ∷ ss) n = ground (arith, prefix_match-eq p s, prefix_matches-eq ps ss)

covers-plain :
    (ps : List PathSegment) (ss : List String)
    → All IsCanonical ps
    → any is_multi_wildcard ps ≡ false
    → covers (pattern_of (map to_string ps)) ss
      ≡ (length ps == length ss && all_match ps (map literal ss))
unfolding covers all_match pattern_of
covers-plain [] [] h n = refl
covers-plain [] (s ∷ ss) h n = ground arith
covers-plain (p ∷ ps) [] h n =
    ap (λ ks. covers ks []) (pattern_of-to_string p (map to_string ps) h.0 (ground arith))
    ∙ ground arith
covers-plain (p ∷ ps) (s ∷ ss) h n =
    ap (λ ks. covers ks (s ∷ ss)) (pattern_of-to_string p (map to_string ps) h.0 (ground arith))
    ∙ covers-key p (pattern_of (map to_string ps)) s ss (ground arith)
    ∙ ground (arith, covers-plain ps ss h.1)

covers-multi :
    (ps : List PathSegment) (ss : List String)
    → All IsCanonical ps
    → any is_multi_wildcard ps ≡ false
    → covers (pattern_of (map to_string (ps ++ multi_wildcard ∷ []))) ss
      ≡ (ltb (length ps) (length ss) && all_match ps (map literal ss))
unfolding covers all_match pattern_of to_string
covers-multi [] [] h n = refl
covers-multi [] (s ∷ ss) h n = ground arith
covers-multi (p ∷ ps) [] h n =
    ap (λ ks. covers ks [])
      (pattern_of-to_string p (map to_string (ps ++ multi_wildcard ∷ [])) h.0 (ground arith))
    ∙ ground arith
covers-multi (p ∷ ps) (s ∷ ss) h n =
    ap (λ ks. covers ks (s ∷ ss))
      (pattern_of-to_string p (map to_string (ps ++ multi_wildcard ∷ [])) h.0 (ground arith))
    ∙ covers-key p (pattern_of (map to_string (ps ++ multi_wildcard ∷ []))) s ss (ground arith)
    ∙ ground (arith, covers-multi ps ss h.1)

ends_in_multi-plain :
    (ps : List PathSegment) → any is_multi_wildcard ps ≡ false → ends_in_multi ps ≡ false
unfolding ends_in_multi
ends_in_multi-plain [] n = refl
ends_in_multi-plain (p ∷ []) n = ground arith
ends_in_multi-plain (p ∷ q ∷ ps) n = ends_in_multi-plain (q ∷ ps) (ground arith)

ends_in_multi-concat : (ps : List PathSegment) → ends_in_multi (ps ++ multi_wildcard ∷ []) ≡ true
unfolding ends_in_multi is_multi_wildcard
ends_in_multi-concat [] = refl
ends_in_multi-concat (p ∷ []) = refl
ends_in_multi-concat (p ∷ q ∷ ps) = ends_in_multi-concat (q ∷ ps)

-- Against literal segments, a pattern of canonical segments with no multi-wildcard matches as it
-- does in the trie. With a multi-wildcard at its end it matches what the trie matches, and also what
-- the segments before the multi-wildcard match alone.
pub segments_match-covers :
    (ps : List PathSegment) (ss : List String)
    → All IsCanonical ps
    → any is_multi_wildcard ps ≡ false
    → (segments_match ps (map literal ss) ≡ covers (pattern_of (map to_string ps)) ss)
      × (segments_match (ps ++ multi_wildcard ∷ []) (map literal ss) ≡ (
          covers (pattern_of (map to_string (ps ++ multi_wildcard ∷ []))) ss
          || covers (pattern_of (map to_string ps)) ss))
unfolding segments_match
segments_match-covers ps ss h n = (
  rw (ends_in_multi-plain ps n, covers-plain ps ss h n, length-map literal ss) (ground arith),
  rw
      (
        ends_in_multi-concat ps,
        covers-plain ps ss h n,
        covers-multi ps ss h n,
        init-concat ps multi_wildcard,
        length-append ps (multi_wildcard ∷ []),
        length-map literal ss,
        prefix_matches-eq ps ss n,
      )
      (ground arith),
)
