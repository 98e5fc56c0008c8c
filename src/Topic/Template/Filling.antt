-- ===== src/Topic/Template/Filling.antt =====
-- A path made from a template gives the parameters it was made from.
use rust_node.Base.{
  String, str_eq, eq_iff, ◌≡◌, refl, sym, ap, subst, ◌∙◌, Bool, true, false, ◌&&◌, List, [], ◌∷◌,
  map, any, length, ◌==◌, none, some, ok, ◌>>=◌, >>=-eq-ok, if◌then◌else◌, All, Bool-cases,
  Option-cases, inl, inr, arith,
}
use rust_node.Base.Assoc.{lookup, insert, lookup-insert}
use rust_node.Text.{contains_char, split_nonempty, join, inner}
use rust_node.Text.Laws.{IsPiece, split_nonempty-IsPiece, split_nonempty-join, contains_char-join}
use rust_node.Topic.Segment.{PathSegment, literal, to_string, from_str, is_template_param}
use rust_node.Topic.Scanning.{scanned}
use rust_node.Topic.Parse.{new-ok, print-read}
use rust_node.Topic.Template.{
  Params, extract_segment, extract_segments, extract_params, fill_segment, fill_segments,
  from_template,
}
use rust_node.Topic.{
  DefaultHasher, TopicPath, scan_start, new, assemble, split_network, get_segments,
}

abbrev NoColon : String → Type 0
NoColon s = contains_char b':' s ≡ false

-- A template's text takes the parameter of that name.
abbrev pub names : String → String → Bool
names name t = is_template_param t && str_eq (inner t) name

fill_segment-ok :
    (params : Params) (t : String) (p : PathSegment)
    → fill_segment params t ≡ ok p
    → (is_template_param t ≡ true → lookup (inner t) params ≡ some (to_string p))
      × (is_template_param t ≡ false → to_string p ≡ t)
unfolding fill_segment to_string
fill_segment-ok params t p h = elim (Bool-cases (is_template_param t)) [
  | inl e ↦ elim (Option-cases (lookup (inner t) params)) [
    | inl missing ↦ cc (rw (e, missing) at h)
    | inr (value, found) ↦
        let same : literal value ≡ p = cc (rw (e, found) at h) in
        (λ _. found ∙ ap (λ q. some (to_string q)) same, λ k. cc)
  ]
  | inr e ↦ let same : literal t ≡ p = cc (rw e at h) in (λ k. cc, λ _. sym (ap to_string same))
]

fill_segments-cons :
    (params : Params) (t : String) (ts : List String) (ps : List PathSegment)
    → fill_segments params (t ∷ ts) ≡ ok ps
    → (p : PathSegment) × (qs : List PathSegment) × (fill_segment params t ≡ ok p)
      × (fill_segments params ts ≡ ok qs)
      × (ps ≡ p ∷ qs)
unfolding fill_segments
fill_segments-cons params t ts ps h =
    let (p, e, k) =
      >>=-eq-ok (fill_segment params t) (λ p. fill_segments params ts >>= λ qs. ok (p ∷ qs)) h in
    let (qs, f, g) = >>=-eq-ok (fill_segments params ts) (λ qs. ok (p ∷ qs)) k in (p, qs, e, f, cc)

-- What holds of the template's literal texts and of the parameters' values holds of the texts.
fill_segments-All :
    (P : String → Type 0) (params : Params) (ts : List String) (ps : List PathSegment)
    → All P ts
    → ((name value : String) → lookup name params ≡ some value → P value)
    → fill_segments params ts ≡ ok ps
    → All P (map to_string ps)
unfolding fill_segments
fill_segments-All P params [] [] a good h = tt
fill_segments-All P params [] (p ∷ ps) a good h = cc
fill_segments-All P params (t ∷ ts) ps a good h =
    let (p, qs, e, f, same) = fill_segments-cons params t ts ps h in
    let (taken, kept) = fill_segment-ok params t p e in
    subst (λ rs. All P (map to_string rs)) (sym same)
      (
        elim (Bool-cases (is_template_param t)) [
          | inl k ↦ good (inner t) (to_string p) (taken k)
          | inr k ↦ subst P (sym (kept k)) a.0
        ],
        fill_segments-All P params ts qs a.1 good f,
      )

-- Extracting from the filled texts, on top of the parameters so far.
extract-fill :
    (params : Params) (ts : List String) (ps : List PathSegment) (so_far : Params)
    → fill_segments params ts ≡ ok ps
    → (found : Params) × (extract_segments ts (map to_string ps) so_far ≡ ok found)
      × ((name : String)
          → lookup name found
            ≡ (if any (names name) ts then lookup name params else lookup name so_far))
unfolding extract_segments extract_segment fill_segments
extract-fill params [] ps so_far h = (so_far, refl, λ name. refl)
extract-fill params (t ∷ ts) ps so_far h =
    let (p, qs, e, f, same) = fill_segments-cons params t ts ps h in
    let (taken, kept) = fill_segment-ok params t p e in
    elim (Bool-cases (is_template_param t)) [
      | inl k ↦
          let (found, run, agrees) =
            extract-fill params ts qs (insert (inner t) (to_string p) so_far) f in
          (
            found,
            rw (same, k) run,
            λ name. ground (
              arith,
              k,
              agrees name,
              taken,
              eq_iff (inner t) name,
              lookup-insert (inner t) name (to_string p) so_far,
            ),
          )
      | inr k ↦
          let (found, run, agrees) = extract-fill params ts qs so_far f in
          (
            found,
            rw (same, k) (ground (arith, kept, eq_iff t (to_string p), run)),
            λ name. ground (arith, k, agrees name),
          )
    ]

same_length :
    (params : Params) (ts : List String) (ps : List PathSegment)
    → fill_segments params ts ≡ ok ps
    → length (map to_string ps) ≡ length ts
unfolding fill_segments
same_length params [] [] h = refl
same_length params [] (p ∷ ps) h = cc
same_length params (t ∷ ts) ps h =
    let (p, qs, e, f, same) = fill_segments-cons params t ts ps h in
    rw same (omega (arith, same_length params ts qs f))

module _ ⦃hasher : DefaultHasher⦄ where
  assemble-segments :
      (network rest : String)
      → get_segments
          (assemble network rest (scanned 0 (map from_str (split_nonempty b'/' rest)) scan_start))
        ≡ split_nonempty b'/' rest
  unfolding assemble get_segments
  assemble-segments network rest = print-read (split_nonempty b'/' rest)

  -- A path with no network in its text has the pieces between its slashes.
  new-segments :
      (path default_network : String) (tp : TopicPath)
      → NoColon path
      → new path default_network ≡ ok tp
      → get_segments tp ≡ split_nonempty b'/' path
  unfolding split_network
  new-segments path default_network tp plain h =
      let (nr, cut, holds) = new-ok path default_network tp h in
      let rest : path ≡ nr.1 = cc (rw plain at cut) in
      ap get_segments holds.2 ∙ assemble-segments nr.0 nr.1 ∙ sym (ap (split_nonempty b'/') rest)

  cut-join :
      (texts : List String)
      → All (IsPiece b'/') texts
      → split_nonempty b'/' (join "/" texts) ≡ texts
  unfolding split_nonempty join
  cut-join [] h = refl
  cut-join (s ∷ ss) h = split_nonempty-join "/" s ss h

  -- A path made from a template and parameters whose values are segments gives back, to the same
  -- template, the parameters that the template names, each with its value, and no others. The
  -- template has no colon, and the values have none either.
  pub extract_params-from_template :
      (template network : String) (params : Params) (tp : TopicPath)
      → All (λ t. contains_char b':' t ≡ false) (split_nonempty b'/' template)
      → ((name value : String)
          → lookup name params ≡ some value
          → IsPiece b'/' value × (contains_char b':' value ≡ false))
      → from_template template params network ≡ ok tp
      → (found : Params) × (extract_params tp template ≡ ok found)
        × ((name : String)
            → lookup name found ≡ (
                if any (names name) (split_nonempty b'/' template)
                then lookup name params
                else none))
  unfolding extract_params from_template lookup
  extract_params-from_template template network params tp plain good h =
      let ts = split_nonempty b'/' template in
      let (ps, filled, made) =
        >>=-eq-ok (fill_segments params ts) (λ ps. new (join "/" (map to_string ps)) network) h in
      let pieces =
        fill_segments-All (IsPiece b'/') params ts ps (split_nonempty-IsPiece b'/' template)
          (λ name value e. (good name value e).0) filled in
      let colons =
        fill_segments-All NoColon params ts ps plain (λ name value e. (good name value e).1)
          filled in
      let texts : get_segments tp ≡ map to_string ps =
        new-segments (join "/" (map to_string ps)) network tp
          (contains_char-join b':' "/" (map to_string ps) refl colons) made
        ∙ cut-join (map to_string ps) pieces in
      let (found, run, agrees) = extract-fill params ts ps [] filled in
      let even : (length (map to_string ps) == length ts) ≡ true =
        ground (arith, same_length params ts ps filled) in
      (found, rw (texts, even) run, agrees)
