-- ===== src/Topic/Scanning.antt =====
-- The loop of `TopicPath::new` against a description with no loop.
use rust_node.Base.{
  ℕ, suc, length-map, sym, ◌+◌, ◌-◌, ltb, String, ◌≡◌, refl, ap, Bool, ◌&&◌, ◌||◌, List, [], ◌∷◌,
  ◌++◌, map, length, ok, err, if◌then◌else◌, any, init, append-nil, append_assoc, arith, Bool-cases,
  inl, inr,
}
use rust_node.Topic.Segment.{
  PathSegment, literal, template, single_wildcard, multi_wildcard, from_str, hash_writes,
  is_wildcard, is_multi_wildcard, is_template,
}
use rust_node.Topic.Bitmap.{set_segment_type}
use rust_node.Topic.{segment_type, DefaultHasher, Scan, scan, scan_segment, multi_wildcard_not_last}

-- The bitmap with the kinds of the segments written from index `i` on.
unfoldable pub encode : ℕ → ℕ → List PathSegment → ℕ
encode bitmap i [] = bitmap
encode bitmap i (p ∷ ps) = encode (set_segment_type bitmap i (segment_type p)) (suc i) ps

-- A multi-wildcard stands before the last segment.
unfoldable pub has_early_multi : List PathSegment → Bool
has_early_multi ps = any is_multi_wildcard (init ps)

early-cons :
    (p : PathSegment) (ps : List PathSegment) (i total : ℕ)
    → i + suc (length ps) ≡ total
    → has_early_multi (p ∷ ps) ≡ ((is_multi_wildcard p && ltb i (total - 1)) || has_early_multi ps)
unfolding has_early_multi
early-cons p [] i total h = ground arith
early-cons p (q ∷ ps) i total h = ground arith

module _ ⦃hasher : DefaultHasher⦄ where
  -- The loop's variables after the segments `ps`, read from index `i` on.
  abbrev pub scanned : ℕ → List PathSegment → Scan → Scan
  scanned i ps st = record {
    segments = st.segments ++ ps;
    is_pattern = st.is_pattern || any is_wildcard ps;
    has_templates = st.has_templates || any is_template ps;
    hash_components = st.hash_components ++ map (λ p. hasher.finish (hash_writes p)) ps;
    segment_type_bitmap = encode st.segment_type_bitmap i ps;
  }

  scan_segment-eq :
      (total i : ℕ) (p : PathSegment) (st : Scan)
      → scan_segment total i p st ≡ (
          if is_multi_wildcard p && ltb i (total - 1)
          then err multi_wildcard_not_last
          else ok (scanned i (p ∷ []) st))
  unfolding scan_segment encode is_multi_wildcard is_wildcard is_template
  scan_segment-eq total i (literal s) st = ground arith
  scan_segment-eq total i (template s) st = ground arith
  scan_segment-eq total i single_wildcard st = ground arith
  scan_segment-eq total i multi_wildcard st = ground arith

  scanned-nil : (i : ℕ) (st : Scan) → scanned i [] st ≡ st
  unfolding encode
  scanned-nil i st = ground (arith, append-nil st.segments, append-nil st.hash_components)

  scanned-cons :
      (i : ℕ) (p : PathSegment) (ps : List PathSegment) (st : Scan)
      → scanned (suc i) ps (scanned i (p ∷ []) st) ≡ scanned i (p ∷ ps) st
  unfolding encode
  scanned-cons i p ps st = simp append_assoc (ground arith)

  -- Where the segments left are those up to `total`, the loop fails exactly when a multi-wildcard
  -- stands before the last of them, and otherwise adds up what `scanned` says.
  pub scan-eq :
      (total i : ℕ) (ss : List String) (st : Scan)
      → i + length ss ≡ total
      → scan total i ss st ≡ (
          if has_early_multi (map from_str ss)
          then err multi_wildcard_not_last
          else ok (scanned i (map from_str ss) st))
  unfolding scan has_early_multi
  scan-eq total i [] st h = ap ok (sym (scanned-nil i st))
  scan-eq total i (s ∷ ss) st h =
      let count : i + suc (length (map from_str ss)) ≡ total =
        omega (arith, length-map from_str ss) in
      rw
        (
          scan_segment-eq total i (from_str s) st,
          early-cons (from_str s) (map from_str ss) i total count,
        )
        (elim (Bool-cases (is_multi_wildcard (from_str s) && ltb i (total - 1))) [
          | inl early ↦ rw early refl
          | inr fine ↦
              rw
                (
                  fine,
                  scan-eq total (suc i) ss (scanned i (from_str s ∷ []) st) (omega arith),
                  scanned-cons i (from_str s) (map from_str ss) st,
                )
                refl
        ])
