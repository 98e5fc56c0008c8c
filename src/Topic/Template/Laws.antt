-- ===== src/Topic/Template/Laws.antt =====
-- Templates: the quick test against the extraction, and paths made from a template.
use rust_node.Base.{
  ◌==◌, String, str_eq, ◌≡◌, refl, Bool, true, false, List, [], ◌∷◌, length, Result, ok, err,
  Bool-cases, inl, inr, arith,
}
use rust_node.Base.Assoc.{insert}
use rust_node.Text.{split_nonempty, inner}
use rust_node.Topic.Segment.{is_template_param}
use rust_node.Topic.Template.{
  Params, extract_segment, extract_segments, extract_params, match_segments, is_plain,
  matches_template,
}
use rust_node.Topic.{TopicPath, get_segments}

abbrev pub is_ok {ℓ κ} : {A : Type ℓ} {E : Type κ} → Result A E → Bool
is_ok (ok a) = true
is_ok (err e) = false

is_ok-extract_segments :
    (ts ss : List String) (params : Params)
    → match_segments ts ss ≡ is_ok (extract_segments ts ss params)
unfolding match_segments extract_segments extract_segment
is_ok-extract_segments [] ss params = refl
is_ok-extract_segments (t ∷ ts) [] params = refl
is_ok-extract_segments (t ∷ ts) (s ∷ ss) params = elim (Bool-cases (is_template_param t)) [
  | inl e ↦ rw e (is_ok-extract_segments ts ss (insert (inner t) s params))
  | inr e ↦ elim (Bool-cases (str_eq t s)) [
    | inl f ↦ rw (e, f) (is_ok-extract_segments ts ss params)
    | inr f ↦ rw (e, f) refl
  ]
]

-- Where one side has templates, a path matches a template exactly when extracting its parameters
-- succeeds.
matches_template-extract_params :
    (tp : TopicPath) (template : String)
    → tp.segment_count ≡ length (get_segments tp)
    → is_plain tp template ≡ false
    → matches_template tp template ≡ is_ok (extract_params tp template)
unfolding matches_template extract_params
matches_template-extract_params tp template count h =
    elim (Bool-cases (length (get_segments tp) == length (split_nonempty b'/' template))) [
      | inl e ↦
          rw (h, e)
            (ground (
              arith,
              count,
              is_ok-extract_segments (split_nonempty b'/' template) (get_segments tp) [],
            ))
      | inr e ↦ rw (h, e) (ground (arith, count))
    ]
