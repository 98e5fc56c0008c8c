-- ===== src/Topic/Family/Children.antt =====
-- The children of a path: what `child` returns, their segments, the way back up, and those below a
-- multi-wildcard.
use rust_node.Base.{
  true, some, any, last, ◌+◌, ◌-◌, String, ◌≡◌, ◌≢◌, refl, ap, ◌∙◌, false, List, [], ◌∷◌, ◌++◌, ok,
  map, map-append, length, init, arith, length-append, init-concat, Bool-cases, inl, inr, leb,
}
use rust_node.Text.{contains_char}
use rust_node.Topic.Segment.{PathSegment, multi_wildcard, is_multi_wildcard, from_str, to_string}
use rust_node.Topic.Segment.Laws.{to_string-from_str}
use rust_node.Topic.Bitmap.{clear_segment_type}
use rust_node.Topic.Scanning.{has_early_multi}
use rust_node.Topic.Consistent.{IsConsistent, new-late_multi}
use rust_node.Topic.{new, DefaultHasher, TopicPath, get_segments}
use rust_node.Topic.Family.{child, child_text, parent, extend, shrink}

-- What `child` returns, when it does.
pub child-ok :
    (tp c : TopicPath) (segment : String)
    → child tp segment ≡ ok c
    → (contains_char b'/' segment ≡ false)
      × (c ≡ extend tp (from_str segment) (child_text tp segment))
unfolding child
child-ok tp c segment h = elim (Bool-cases (contains_char b'/' segment)) [
  | inl e ↦ cc (rw e at h)
  | inr e ↦ (e, cc (rw e at h))
]

long_enough :
    (ps : List PathSegment) (p : PathSegment) → ps ≢ [] → leb (length (ps ++ p ∷ [])) 1 ≡ false
long_enough [] p n = absurd (n refl)
long_enough (q ∷ ps) p n = ground (arith, length-append ps (p ∷ []))

parent-extend :
    (tp : TopicPath) (p : PathSegment) (text : String)
    → IsConsistent tp
    → (q : TopicPath) × (parent (extend tp p text) ≡ ok q)
      × (q.segments ≡ tp.segments)
      × (q.network_id ≡ tp.network_id)
      × (q.service_path ≡ tp.service_path)
      × (q.segment_count ≡ tp.segment_count)
unfolding parent shrink extend
parent-extend tp p text v = (
  shrink (extend tp p text) (init (tp.segments ++ p ∷ []))
      (clear_segment_type (extend tp p text).segment_type_bitmap (tp.segment_count + 1 - 1)),
  rw (long_enough tp.segments p v.filled),
  init-concat tp.segments p,
  refl,
  refl,
  omega arith,
)

-- The parent of a child has the segments, the network and the service of the path it came from.
parent-child :
    (tp c : TopicPath) (segment : String)
    → IsConsistent tp
    → child tp segment ≡ ok c
    → (p : TopicPath) × (parent c ≡ ok p)
      × (p.segments ≡ tp.segments)
      × (p.network_id ≡ tp.network_id)
      × (p.service_path ≡ tp.service_path)
      × (p.segment_count ≡ tp.segment_count)
parent-child tp c segment v h =
    rw (child-ok tp c segment h).1 (parent-extend tp (from_str segment) (child_text tp segment) v)

-- The segments of a child are those of its parent and the new one, as texts.
get_segments-child :
    (tp c : TopicPath) (segment : String)
    → child tp segment ≡ ok c
    → get_segments c ≡ get_segments tp ++ segment ∷ []
unfolding get_segments extend
get_segments-child tp c segment h =
    ap get_segments (child-ok tp c segment h).1
    ∙ map-append to_string tp.segments (from_str segment ∷ [])
    ∙ ap (λ s. map to_string tp.segments ++ s ∷ []) (to_string-from_str segment)

any-last : (ps : List PathSegment) → last ps ≡ some multi_wildcard → any is_multi_wildcard ps ≡ true
unfolding is_multi_wildcard
any-last [] e = cc
any-last (p ∷ []) e = ground arith
any-last (p ∷ q ∷ ps) e = ground (arith, any-last (q ∷ ps) e)

-- A path that ends with a multi-wildcard has a child for every segment without a slash, and its
-- segments are not those of any path that `new` accepts.
pub child-early_multi :
    ⦃hasher : DefaultHasher⦄ (tp : TopicPath) (segment path default_network : String)
    (accepted : TopicPath)
    → last tp.segments ≡ some multi_wildcard
    → contains_char b'/' segment ≡ false
    → new path default_network ≡ ok accepted
    → (c : TopicPath) × (child tp segment ≡ ok c) × (accepted.segments ≢ c.segments)
unfolding child has_early_multi extend
child-early_multi tp segment path default_network accepted e plain built =
    let c = extend tp (from_str segment) (child_text tp segment) in
    let early : any is_multi_wildcard (init c.segments) ≡ true =
      ap (any is_multi_wildcard) (init-concat tp.segments (from_str segment))
      ∙ any-last tp.segments e in
    let late : any is_multi_wildcard (init accepted.segments) ≡ false =
      new-late_multi path default_network accepted built in
    (c, rw plain refl, λ same. cc (early, late, same))
