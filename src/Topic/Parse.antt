-- ===== src/Topic/Parse.antt =====
-- `TopicPath::new` as a whole: its value with the loop resolved, and printing and reading back.
use rust_node.Base.{
  String, ◌≡◌, ap₂, ◌≢◌, refl, false, List, [], ◌∷◌, map, length, Result, ok, err, ◌>>=◌, >>=-eq-ok,
  if◌then◌else◌, arith, Bool-cases, inl, inr, All, Result-cases,
}
use Prim.Native.String.{[], ◌∷◌}
use text.Mathlib.TextLemmas.{nil-append, cons-append}
use rust_node.Text.{◌⧺◌, is_empty, contains_char, split_nonempty, join}
use rust_node.Text.Laws.{
  IsPiece, split_whole, split_at, split_nonempty-join, contains_char-append, contains_char-join,
}
use rust_node.Topic.Segment.{from_str, to_string}
use rust_node.Topic.Segment.Laws.{to_string-from_str}
use rust_node.Topic.Scanning.{scan-eq, scanned, has_early_multi}
use rust_node.Topic.{
  DefaultHasher, scan, scan_start, TopicPath, TopicError, multi_wildcard_not_last, assemble,
  split_network, two_parts, some_segments, first_text, new, get_segments,
}

module _ ⦃hasher : DefaultHasher⦄ where
  -- What `new` makes of the network and the rest of the text.
  pub parsed : String → String → Result TopicPath TopicError
  parsed network rest = do
    parts ← some_segments (split_nonempty b'/' rest)
    if has_early_multi (map from_str parts)
        then err multi_wildcard_not_last
        else ok (assemble network rest (scanned 0 (map from_str parts) scan_start))

  scan_parts-eq :
      (network rest : String) (parts : List String)
      → (do
        ps ← some_segments parts
        st ← scan (length ps) 0 ps scan_start
        ok (assemble network rest st))
        ≡ (do
          ps ← some_segments parts
          if has_early_multi (map from_str ps)
              then err multi_wildcard_not_last
              else ok (assemble network rest (scanned 0 (map from_str ps) scan_start)))
  unfolding some_segments
  scan_parts-eq network rest [] = refl
  scan_parts-eq network rest (s ∷ ss) =
      rw (scan-eq (length (s ∷ ss)) 0 (s ∷ ss) scan_start (omega arith))
        (elim (Bool-cases (has_early_multi (map from_str (s ∷ ss)))) [
          | inl e ↦ rw e
          | inr e ↦ rw e
        ])

  pub new-eq :
      (path default_network : String)
      → new path default_network ≡ (split_network path default_network >>= λ nr. parsed nr.0 nr.1)
  unfolding parsed new
  new-eq path default_network = elim (Result-cases (split_network path default_network)) [
    | inl (nr, e) ↦ rw e (scan_parts-eq nr.0 nr.1 (split_nonempty b'/' nr.1))
    | inr (e, h) ↦ rw h refl
  ]

-- A text "network:rest", with no further colon, is cut at its colon.
pub split_network-format :
    (network rest default_network : String)
    → is_empty network ≡ false
    → contains_char b':' network ≡ false
    → contains_char b':' rest ≡ false
    → split_network (network ⧺ ":" ⧺ rest) default_network ≡ ok (network, rest)
unfolding split_network two_parts
split_network-format network rest default_network filled plain plain_rest =
    rw
      (
        contains_char-append b':' network (":" ⧺ rest),
        plain,
        cons-append,
        nil-append,
        split_at ":" network rest plain,
        split_whole b':' rest plain_rest,
      )
      (rw filled)

pub print-read : (ss : List String) → map to_string (map from_str ss) ≡ ss
print-read [] = refl
print-read (s ∷ ss) = ap₂ ◌∷◌ (to_string-from_str s) (print-read ss)

module _ ⦃hasher : DefaultHasher⦄ where
  parsed-join :
      (network s : String) (ss : List String)
      → All (IsPiece b'/') (s ∷ ss)
      → has_early_multi (map from_str (s ∷ ss)) ≡ false
      → parsed network (join "/" (s ∷ ss))
        ≡ ok (assemble network (join "/" (s ∷ ss)) (scanned 0 (map from_str (s ∷ ss)) scan_start))
  unfolding parsed some_segments
  parsed-join network s ss pieces fine = rw (split_nonempty-join "/" s ss pieces) (rw fine)

  -- A path printed from its network and its segments is read as those, whatever the default
  -- network: the segments are the pieces between the slashes, kept as they are.
  pub new-format :
      (network s : String) (ss : List String) (default_network : String)
      → is_empty network ≡ false
      → contains_char b':' network ≡ false
      → All (IsPiece b'/') (s ∷ ss)
      → All (λ p. contains_char b':' p ≡ false) (s ∷ ss)
      → has_early_multi (map from_str (s ∷ ss)) ≡ false
      → (tp : TopicPath) × (new (network ⧺ ":" ⧺ join "/" (s ∷ ss)) default_network ≡ ok tp)
        × (get_segments tp ≡ s ∷ ss)
        × (tp.network_id ≡ network)
        × (tp.service_path ≡ s)
        × (tp.path ≡ network ⧺ ":" ⧺ join "/" (s ∷ ss))
  unfolding assemble get_segments first_text
  new-format network s ss default_network filled plain pieces no_colon fine = (
    assemble network (join "/" (s ∷ ss)) (scanned 0 (map from_str (s ∷ ss)) scan_start),
    rw
        (
          new-eq (network ⧺ ":" ⧺ join "/" (s ∷ ss)) default_network,
          split_network-format network (join "/" (s ∷ ss)) default_network filled plain
              (contains_char-join b':' "/" (s ∷ ss) refl no_colon),
        )
        (parsed-join network s ss pieces fine),
    print-read (s ∷ ss),
    refl,
    to_string-from_str s,
    refl,
  )

  -- What a parsed rest holds.
  abbrev pub Holds : String → String → TopicPath → Type 0
  Holds network rest tp =
      (split_nonempty b'/' rest ≢ [])
      × (has_early_multi (map from_str (split_nonempty b'/' rest)) ≡ false)
      × (tp
          ≡ assemble network rest (scanned 0 (map from_str (split_nonempty b'/' rest)) scan_start))

  scan_parts-ok :
      (network rest : String) (parts : List String) (tp : TopicPath)
      → (do
        ps ← some_segments parts
        if has_early_multi (map from_str ps)
            then err multi_wildcard_not_last
            else ok (assemble network rest (scanned 0 (map from_str ps) scan_start)))
        ≡ ok tp
      → (parts ≢ [])
        × (has_early_multi (map from_str parts) ≡ false)
        × (tp ≡ assemble network rest (scanned 0 (map from_str parts) scan_start))
  unfolding some_segments
  scan_parts-ok network rest [] tp h = cc
  scan_parts-ok network rest (s ∷ ss) tp h =
      elim (Bool-cases (has_early_multi (map from_str (s ∷ ss)))) [
        | inl e ↦ cc (rw e at h)
        | inr e ↦ ((λ z. cc), e, cc (rw e at h))
      ]

  -- A path that `new` accepts is the record built from its two parts.
  pub new-ok :
      (path default_network : String) (tp : TopicPath)
      → new path default_network ≡ ok tp
      → (nr : String × String) × (split_network path default_network ≡ ok nr) × Holds nr.0 nr.1 tp
  unfolding parsed
  new-ok path default_network tp h =
      let (nr, e, k) =
        >>=-eq-ok (split_network path default_network) (λ nr. parsed nr.0 nr.1) (rw new-eq at h) in
      (nr, e, scan_parts-ok nr.0 nr.1 (split_nonempty b'/' nr.1) tp k)
