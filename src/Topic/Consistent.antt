-- ===== src/Topic/Consistent.antt =====
-- The cached fields of a path agree with its segments, and its bitmap tells their kinds.
use native.Mathlib.Nat.{add-zero}
use rust_node.Base.{
  ℕ, zero, suc, ◌+◌, ◌<◌, ◌≤◌, String, ◌≡◌, ◌≢◌, refl, sym, subst, List, [], ◌∷◌, some, ok, any, ap,
  ◌∙◌, false, map, length, get_elem?, arith,
}
use rust_node.Text.{split_nonempty}
use rust_node.Topic.Segment.{PathSegment, from_str, is_wildcard, is_template}
use rust_node.Topic.Bitmap.{get_segment_type, set_segment_type}
use rust_node.Topic.Bitmap.Laws.{get-set_segment_type}
use rust_node.Topic.Scanning.{has_early_multi, encode, scanned}
use rust_node.Topic.Parse.{new-ok}
use rust_node.Topic.{segment_type, DefaultHasher, TopicPath, first_text, new, assemble, scan_start}

-- The bitmap tells the kind of each segment.
abbrev pub Encodes : ℕ → List PathSegment → Type 0
Encodes bitmap ps =
    (i : ℕ) (p : PathSegment) → get_elem? ps i ≡ some p → get_segment_type bitmap i ≡ segment_type p

pub add_suc_comm : (i k : ℕ) → suc i + k ≡ i + suc k
add_suc_comm i k = omega arith

-- The bitmap tells the kind of each segment, from an index on.
abbrev pub EncodesFrom : ℕ → ℕ → List PathSegment → Type 0
EncodesFrom b i [] = Unit
EncodesFrom b i (p ∷ ps) = (get_segment_type b i ≡ segment_type p) × EncodesFrom b (suc i) ps

pub from_of_Encodes :
    (b i : ℕ) (ps : List PathSegment)
    → ((k : ℕ) (p : PathSegment)
        → get_elem? ps k ≡ some p
        → get_segment_type b (i + k) ≡ segment_type p)
    → EncodesFrom b i ps
from_of_Encodes b i [] h = tt
from_of_Encodes b i (p ∷ ps) h = (
  rw add-zero at (h 0 p refl),
  from_of_Encodes b (suc i) ps (λ k q e. rw (sym (add_suc_comm i k)) at (h (suc k) q e)),
)

-- What `new` caches of the segments, but for the bitmap.
pub record IsConsistent (tp : TopicPath) : Type 0 where
  pub filled : tp.segments ≢ []
  pub count : tp.segment_count ≡ length tp.segments
  pub pattern : tp.is_pattern ≡ any is_wildcard tp.segments
  pub templates : tp.has_templates ≡ any is_template tp.segments
  pub service : tp.service_path ≡ first_text tp.segments

pub segment_type-lt : (p : PathSegment) → segment_type p < 4
segment_type-lt (PathSegment.literal s) = omega arith
segment_type-lt (PathSegment.template s) = omega arith
segment_type-lt PathSegment.single_wildcard = omega arith
segment_type-lt PathSegment.multi_wildcard = omega arith

-- Writing from index `i` on leaves the slots before it.
pub encode_below :
    (b i : ℕ) (ps : List PathSegment) (j : ℕ)
    → j < i
    → i + length ps ≤ 32
    → get_segment_type (encode b i ps) j ≡ get_segment_type b j
unfolding encode
encode_below b i [] j h k = refl
encode_below b i (p ∷ ps) j h k = ground (
  arith,
  encode_below (set_segment_type b i (segment_type p)) (suc i) ps j,
  get-set_segment_type b i j (segment_type p),
  segment_type-lt p,
)

pub encode_at :
    (b i : ℕ) (ps : List PathSegment) (k : ℕ) (p : PathSegment)
    → i + length ps ≤ 32
    → get_elem? ps k ≡ some p
    → get_segment_type (encode b i ps) (i + k) ≡ segment_type p
unfolding encode
encode_at b i [] k p h e = cc
encode_at b i (q ∷ ps) zero p h e = ground (
  arith,
  encode_below (set_segment_type b i (segment_type q)) (suc i) ps i,
  get-set_segment_type b i i (segment_type q),
  segment_type-lt q,
  add-zero i,
)
encode_at b i (q ∷ ps) (suc k) p h e =
    rw (← add_suc_comm i k)
      (encode_at (set_segment_type b i (segment_type q)) (suc i) ps k p (omega arith) e)

module _ ⦃hasher : DefaultHasher⦄ where
  assemble-IsConsistent :
      (network rest : String) (ss : List String)
      → ss ≢ []
      → IsConsistent (assemble network rest (scanned 0 (map from_str ss) scan_start))
  unfolding assemble
  assemble-IsConsistent network rest [] n = absurd (n refl)
  assemble-IsConsistent network rest (s ∷ ss) n = record {
    filled = λ e. cc;
    count = refl;
    pattern = refl;
    templates = refl;
    service = refl;
  }

  pub new-IsConsistent :
      (path default_network : String) (tp : TopicPath)
      → new path default_network ≡ ok tp
      → IsConsistent tp
  new-IsConsistent path default_network tp h =
      let (nr, cut, holds) = new-ok path default_network tp h in
      subst IsConsistent (sym holds.2)
        (assemble-IsConsistent nr.0 nr.1 (split_nonempty b'/' nr.1) holds.0)

  -- No path that `new` accepts has a multi-wildcard before its last segment.
  pub new-late_multi :
      (path default_network : String) (tp : TopicPath)
      → new path default_network ≡ ok tp
      → has_early_multi tp.segments ≡ false
  unfolding assemble
  new-late_multi path default_network tp h =
      let (nr, cut, holds) = new-ok path default_network tp h in
      ap (λ (t : TopicPath). has_early_multi t.segments) holds.2 ∙ holds.1
