-- ===== src/Topic/Identity/Laws.antt =====
-- Equality of paths, and the contract of `Hash` with it.
use rust_node.Base.{
  String, str_eq, eq_iff, ◌≡◌, ◌≢◌, ◌↔◌, refl, sym, ap, ap₂, subst, ◌∙◌, true, false, List, [], ◌∷◌,
  map, length, Result, ok, arith, Bool-cases, inl, inr,
}
use rust_node.Text.{◌⧺◌, is_empty, contains_char, split_nonempty, join}
use rust_node.Text.Laws.{IsPiece}
use rust_node.Topic.Segment.{PathSegment, from_str, hash_writes, HashWrite, write_str, write_u64}
use rust_node.Topic.Segment.Laws.{segment_eq_iff}
use rust_node.Topic.Scanning.{scanned, has_early_multi}
use rust_node.Topic.Parse.{new-ok, new-format}
use rust_node.Topic.Reprint.{IsNetwork, new-path}
use rust_node.Topic.Identity.{zip_eq, topic_eq, hash, hash_components, hash_segments}
use rust_node.Topic.{DefaultHasher, TopicPath, TopicError, scan_start, new, assemble, new_service}

zip_eq_iff : (ps qs : List PathSegment) → length ps ≡ length qs → (zip_eq ps qs ≡ true) ↔ (ps ≡ qs)
unfolding zip_eq
zip_eq_iff [] [] h = (λ _. refl, λ _. refl)
zip_eq_iff [] (q ∷ qs) h = ground arith
zip_eq_iff (p ∷ ps) [] h = ground arith
zip_eq_iff (p ∷ ps) (q ∷ qs) h = ground (arith, segment_eq_iff p q, zip_eq_iff ps qs)

same_result : {r : Result TopicPath TopicError} {a b : TopicPath} → r ≡ ok a → r ≡ ok b → a ≡ b
same_result e f = cc

module _ ⦃hasher : DefaultHasher⦄ where
  -- What a path built by `new` feeds to a hasher.
  built_hash : String → List PathSegment → List HashWrite
  built_hash network ps =
      write_str network ∷ map (λ p. write_u64 (hasher.finish (hash_writes p))) ps

  map_twice :
      (ps : List PathSegment)
      → map write_u64 (map (λ p. hasher.finish (hash_writes p)) ps)
        ≡ map (λ p. write_u64 (hasher.finish (hash_writes p))) ps
  map_twice [] = refl
  map_twice (p ∷ ps) = ap (◌∷◌ (write_u64 (hasher.finish (hash_writes p)))) (map_twice ps)

  assemble-hash :
      (network rest : String) (ss : List String)
      → ss ≢ []
      → hash (assemble network rest (scanned 0 (map from_str ss) scan_start))
        ≡ built_hash network (map from_str ss)
  unfolding hash assemble built_hash hash_components
  assemble-hash network rest [] n = absurd (n refl)
  assemble-hash network rest (s ∷ ss) n =
      ap (λ ws. write_str network ∷ ws) (map_twice (map from_str (s ∷ ss)))

  built :
      (path default_network : String) (tp : TopicPath)
      → new path default_network ≡ ok tp
      → (tp.segment_count ≡ length tp.segments) × (hash tp ≡ built_hash tp.network_id tp.segments)
  unfolding assemble
  built path default_network tp h =
      let (nr, cut, holds) = new-ok path default_network tp h in
      subst
        (λ (t : TopicPath).
          (t.segment_count ≡ length t.segments) × (hash t ≡ built_hash t.network_id t.segments))
        (sym holds.2) (refl, assemble-hash nr.0 nr.1 (split_nonempty b'/' nr.1) holds.0)

  -- Two paths that `new` accepts are equal exactly when their networks and their segments are.
  topic_eq_iff :
      (p q default_network other : String) (a b : TopicPath)
      → IsNetwork default_network
      → IsNetwork other
      → new p default_network ≡ ok a
      → new q other ≡ ok b
      → (topic_eq a b ≡ true) ↔ ((a.network_id ≡ b.network_id) × (a.segments ≡ b.segments))
  unfolding topic_eq
  topic_eq_iff p q default_network other a b n m h k = elim (Bool-cases (str_eq a.path b.path)) [
    | inl e ↦
        let same : a ≡ b = same_result (new-path p default_network default_network a n h) (
          ap (λ t. new t default_network) ((eq_iff a.path b.path).0 e)
          ∙ new-path q other default_network b m k) in
        (
          (λ _.
              (ap (λ (t : TopicPath). t.network_id) same, ap (λ (t : TopicPath). t.segments) same)),
          λ _. rw e refl,
        )
    | inr e ↦ ground (
      arith,
      eq_iff a.network_id b.network_id,
      zip_eq_iff a.segments b.segments,
      (built p default_network a h).0,
      (built q other b k).0,
      ap length {x = a.segments} {y = b.segments},
    )
  ]

  -- Equal paths that `new` accepts feed the same writes to a hasher.
  pub hash-topic_eq :
      (p q default_network other : String) (a b : TopicPath)
      → IsNetwork default_network
      → IsNetwork other
      → new p default_network ≡ ok a
      → new q other ≡ ok b
      → topic_eq a b ≡ true
      → hash a ≡ hash b
  hash-topic_eq p q default_network other a b n m h k e =
      let (network, segments) = (topic_eq_iff p q default_network other a b n m h k).0 e in
      (built p default_network a h).1 ∙ ap₂ built_hash network segments ∙ sym (built q other b k).1

  built_hash-ne :
      (network other name : String) (ps : List PathSegment)
      → built_hash network ps ≢ hash (new_service other name)
  unfolding hash built_hash new_service hash_components hash_segments hash_writes
  built_hash-ne network other name [] e = cc
  built_hash-ne network other name (p ∷ ps) e = cc

  -- A service's path built by `new` equals the one that `new_service` gives, and feeds other writes
  -- to a hasher: the second has no hash components.
  pub new_service-hash :
      (network name default_network : String)
      → is_empty network ≡ false
      → contains_char b':' network ≡ false
      → IsPiece b'/' name
      → contains_char b':' name ≡ false
      → (tp : TopicPath) × (new (network ⧺ ":" ⧺ name) default_network ≡ ok tp)
        × (topic_eq tp (new_service network name) ≡ true)
        × (hash tp ≢ hash (new_service network name))
  unfolding topic_eq new_service has_early_multi join
  new_service-hash network name default_network filled plain piece colon =
      let (tp, h, segments, nets, service, text) =
        new-format network name [] default_network filled plain (piece, tt) (colon, tt) refl in
      (
        tp,
        h,
        ground (arith, eq_iff tp.path (network ⧺ ":" ⧺ name), text),
        λ e.
            built_hash-ne tp.network_id network name tp.segments
              (sym (built (network ⧺ ":" ⧺ name) default_network tp h).1 ∙ e),
      )
