-- ===== src/Topic/Family/Laws.antt =====
-- Children and parents of a path: their caches and bitmaps.
use native.Mathlib.Nat.{zero-add}
use rust_node.Base.{
  ℕ, suc, ◌-◌, ◌<◌, ◌≤◌, String, ◌≡◌, ◌≢◌, refl, sym, ap, subst, ◌∙◌, Bool, false, ◌||◌, List, [],
  ◌∷◌, ◌++◌, ok, any, length, init, arith, length-append, any-append, length-init, get_elem?-concat,
  get_elem?-init, Bool-cases, inl, inr, leb,
}
use rust_node.Topic.Segment.{
  PathSegment, from_str, is_wildcard, is_template, literal, template, single_wildcard,
  multi_wildcard,
}
use rust_node.Topic.Bitmap.{set_segment_type, clear_segment_type}
use rust_node.Topic.Bitmap.Laws.{get-set_segment_type, clear-set}
use rust_node.Topic.Consistent.{
  IsConsistent, Encodes, EncodesFrom, from_of_Encodes, segment_type-lt,
}
use rust_node.Topic.{TopicPath, first_text, segment_type}
use rust_node.Topic.Family.Children.{child-ok}
use rust_node.Topic.Family.{child, child_text, parent, extend, shrink, flag_type, flag_types}

first_text-append :
    (ps : List PathSegment) (p : PathSegment) → ps ≢ [] → first_text (ps ++ p ∷ []) ≡ first_text ps
unfolding first_text
first_text-append [] p n = absurd (n refl)
first_text-append (q ∷ ps) p n = refl

first_text-init : (ps : List PathSegment) → 1 < length ps → first_text (init ps) ≡ first_text ps
unfolding first_text
first_text-init [] h = refl
first_text-init (p ∷ []) h = absurd (omega arith)
first_text-init (p ∷ q ∷ ps) h = refl

append-ne-nil : (ps : List PathSegment) (p : PathSegment) → ps ++ p ∷ [] ≢ []
append-ne-nil [] p e = cc
append-ne-nil (q ∷ ps) p e = cc

Encodes-append :
    (b : ℕ) (ps : List PathSegment) (p : PathSegment)
    → length ps < 32
    → Encodes b ps
    → Encodes (set_segment_type b (length ps) (segment_type p)) (ps ++ p ∷ [])
Encodes-append b ps p room h i q e = ground (
  arith,
  get_elem?-concat ps p i,
  get-set_segment_type b (length ps) i (segment_type p),
  segment_type-lt p,
  h i q,
)

Encodes-init :
    (b : ℕ) (ps : List PathSegment)
    → length ps ≤ 32
    → Encodes b ps
    → Encodes (clear_segment_type b (length ps - 1)) (init ps)
Encodes-init b ps room h i q e =
    let (at_i, inside) = get_elem?-init ps i q e in
    rw (clear-set b (length ps - 1))
      (ground (arith, get-set_segment_type b (length ps - 1) i 0, h i q))

flag_type_lem :
    (p : PathSegment) (x y : Bool)
    → flag_type (segment_type p) (x, y) ≡ (x || is_wildcard p, y || is_template p)
unfolding flag_type is_wildcard is_template
flag_type_lem (literal s) x y = ground arith
flag_type_lem (template s) x y = ground arith
flag_type_lem single_wildcard x y = ground arith
flag_type_lem multi_wildcard x y = ground arith

flag_types_lem :
    (b i : ℕ) (ps : List PathSegment) (x y : Bool)
    → EncodesFrom b i ps
    → flag_types b i (length ps) (x, y) ≡ (x || any is_wildcard ps, y || any is_template ps)
unfolding flag_types
flag_types_lem b i [] x y h = ground arith
flag_types_lem b i (p ∷ ps) x y h =
    ap (λ t. flag_types b (suc i) (length ps) (flag_type t (x, y))) h.0
    ∙ ap (flag_types b (suc i) (length ps)) (flag_type_lem p x y)
    ∙ flag_types_lem b (suc i) ps (x || is_wildcard p) (y || is_template p) h.1
    ∙ ground arith

extend-IsConsistent :
    (tp : TopicPath) (p : PathSegment) (text : String)
    → IsConsistent tp
    → IsConsistent (extend tp p text)
unfolding extend
extend-IsConsistent tp p text v = record {
  filled = append-ne-nil tp.segments p;
  count = omega (arith, v.count, length-append tp.segments (p ∷ []));
  pattern = ground (arith, v.pattern, any-append is_wildcard tp.segments (p ∷ []));
  templates = ground (arith, v.templates, any-append is_template tp.segments (p ∷ []));
  service = v.service ∙ sym (first_text-append tp.segments p v.filled);
}

extend-Encodes :
    (tp : TopicPath) (p : PathSegment) (text : String)
    → IsConsistent tp
    → length tp.segments < 32
    → Encodes tp.segment_type_bitmap tp.segments
    → Encodes (extend tp p text).segment_type_bitmap (extend tp p text).segments
unfolding extend
extend-Encodes tp p text v inside coded =
    subst
      (λ n.
        Encodes (set_segment_type tp.segment_type_bitmap n (segment_type p))
          (tp.segments ++ p ∷ []))
      (sym v.count) (Encodes-append tp.segment_type_bitmap tp.segments p inside coded)

-- The bitmap of a parent, where that of the path tells the kinds of its segments.
shrunk-Encodes :
    (tp : TopicPath)
    → IsConsistent tp
    → length tp.segments ≤ 32
    → Encodes tp.segment_type_bitmap tp.segments
    → Encodes (clear_segment_type tp.segment_type_bitmap (tp.segment_count - 1)) (init tp.segments)
shrunk-Encodes tp v room coded =
    subst (λ n. Encodes (clear_segment_type tp.segment_type_bitmap (n - 1)) (init tp.segments))
      (sym v.count) (Encodes-init tp.segment_type_bitmap tp.segments room coded)

shrink-IsConsistent :
    (tp : TopicPath)
    → IsConsistent tp
    → 1 < length tp.segments
    → length tp.segments ≤ 32
    → Encodes tp.segment_type_bitmap tp.segments
    → IsConsistent (
        shrink tp
          (init tp.segments)
          (clear_segment_type tp.segment_type_bitmap (tp.segment_count - 1)))
unfolding shrink
shrink-IsConsistent tp v long room coded =
    let flags =
      flag_types_lem (clear_segment_type tp.segment_type_bitmap (tp.segment_count - 1)) 0
        (init tp.segments) false false
        (from_of_Encodes _ 0 (init tp.segments)
          (λ k q e. rw zero-add (shrunk-Encodes tp v room coded k q e))) in
    record {
      filled = λ e. absurd (omega (arith, ap length e, length-init tp.segments));
      count = omega (arith, v.count, length-init tp.segments);
      pattern = ap (λ (f : Bool × Bool). f.0) flags;
      templates = ap (λ (f : Bool × Bool). f.1) flags;
      service = v.service ∙ sym (first_text-init tp.segments long);
    }

parent-ok :
    (tp p : TopicPath)
    → parent tp ≡ ok p
    → (1 < length tp.segments)
      × (p
          ≡ shrink tp
              (init tp.segments)
              (clear_segment_type tp.segment_type_bitmap (tp.segment_count - 1)))
unfolding parent
parent-ok tp p h = elim (Bool-cases (leb (length tp.segments) 1)) [
  | inl e ↦ cc (rw e at h)
  | inr e ↦ (ground arith, cc (rw e at h))
]

-- A child has caches that agree with its segments, as long as its parent has.
child-IsConsistent :
    (tp c : TopicPath) (segment : String)
    → IsConsistent tp
    → child tp segment ≡ ok c
    → IsConsistent c
child-IsConsistent tp c segment v h =
    subst IsConsistent (sym (child-ok tp c segment h).1)
      (extend-IsConsistent tp (from_str segment) (child_text tp segment) v)

-- The bitmap of a child, where there is room for its segment.
child-Encodes :
    (tp c : TopicPath) (segment : String)
    → IsConsistent tp
    → length tp.segments < 32
    → Encodes tp.segment_type_bitmap tp.segments
    → child tp segment ≡ ok c
    → Encodes c.segment_type_bitmap c.segments
child-Encodes tp c segment v inside coded h =
    subst (λ (t : TopicPath). Encodes t.segment_type_bitmap t.segments)
      (sym (child-ok tp c segment h).1)
      (extend-Encodes tp (from_str segment) (child_text tp segment) v inside coded)

-- A parent has such caches, where the bitmap has room for the segments of the path and tells their
-- kinds.
parent-IsConsistent :
    (tp p : TopicPath)
    → IsConsistent tp
    → length tp.segments ≤ 32
    → Encodes tp.segment_type_bitmap tp.segments
    → parent tp ≡ ok p
    → IsConsistent p
parent-IsConsistent tp p v room coded h =
    let (long, e) = parent-ok tp p h in
    subst IsConsistent (sym e) (shrink-IsConsistent tp v long room coded)
