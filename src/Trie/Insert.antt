-- ===== src/Trie/Insert.antt =====
-- Registering handlers adds entries, and nothing else.
use mathlib.Core.List.Perm
use rust_node.Base.{
  String, str_eq, eq_iff, ◌≡◌, refl, sym, ap, subst, ◌∙◌, List, [], ◌∷◌, ◌++◌, map-append,
  append-nil, Perm, perm-append_front, perm-append_back, Bool-cases, inl, inr,
}
use rust_node.Topic.Segment.{is_template_param}
use rust_node.Trie.Entries.{
  Key, exactly, any_one, parameter, all_left, pattern_of, below_key, here, entries,
  entries_children, entries_child,
}
use rust_node.Trie.{
  PathTrie, Children, Child, node, vacant, child, absent, present, upsert_child, child_or_new,
  set_step, set_values_internal,
}

module _ {ℓ} {T : Type ℓ} where
  below_key-here :
      (k : Key) (ks : List Key) (hs : List T) → below_key k (here ks hs) ≡ here (k ∷ ks) hs
  below_key-here k ks [] = refl
  below_key-here k ks (h ∷ hs) = ap (◌∷◌ (k ∷ ks, h)) (below_key-here k ks hs)

  below_key-perm :
      (k : Key) (ks : List Key) (hs : List T) {later : List (List Key × T)}
      (old : List (List Key × T))
      → Perm later (old ++ here ks hs)
      → Perm (below_key k later) (below_key k old ++ here (k ∷ ks) hs)
  below_key-perm k ks hs old p =
      subst (Perm _)
        (map-append _ old (here ks hs) ∙ ap (◌++◌ (below_key k old)) (below_key-here k ks hs))
        (Perm.map _ p)

  -- What the recursion adds below a segment.
  abbrev Adds : (PathTrie T → PathTrie T) → List Key → List T → Type ℓ
  Adds f ks hs = (t : PathTrie T) → Perm (entries (f t)) (entries t ++ here ks hs)

  entries-child_or_new : (c : Child T) → entries (child_or_new c) ≡ entries_child c
  unfolding entries
  entries-child_or_new absent = refl
  entries-child_or_new (present t) = refl

  child-adds :
      (f : PathTrie T → PathTrie T) (k : Key) (ks : List Key) (hs : List T) (c : Child T)
      → Adds f ks hs
      → Perm
          (below_key k (entries (f (child_or_new c))))
          (below_key k (entries_child c) ++ here (k ∷ ks) hs)
  child-adds f k ks hs c h = below_key-perm k ks hs (entries_child c) (
      subst (λ es. Perm (entries (f (child_or_new c))) (es ++ here ks hs)) (entries-child_or_new c)
        (h (child_or_new c)))

  upsert_child-adds :
      (f : PathTrie T → PathTrie T) (key : String) (ks : List Key) (hs : List T) (c : Children T)
      → Adds f ks hs
      → Perm
          (entries_children (upsert_child key f c))
          (entries_children c ++ here (exactly key ∷ ks) hs)
  unfolding upsert_child entries
  upsert_child-adds f key ks hs vacant h = rw append-nil (child-adds f (exactly key) ks hs absent h)
  upsert_child-adds f key ks hs (child k t r) h = elim (Bool-cases (str_eq k key)) [
    | inl e ↦ rw e (
        subst
          (λ j.
            Perm (below_key (exactly k) (entries (f t)) ++ entries_children r) (
              (below_key (exactly k) (entries t) ++ entries_children r)
              ++ here (exactly j ∷ ks) hs))
          ((eq_iff k key).0 e)
          (perm-append_back (entries_children r) (below_key (exactly k) (entries t))
            (here (exactly k ∷ ks) hs) (below_key-perm (exactly k) ks hs (entries t) (h t))))
    | inr e ↦ rw e (
        perm-append_front (below_key (exactly k) (entries t)) (entries_children r)
          (here (exactly key ∷ ks) hs) (upsert_child-adds f key ks hs r h))
  ]

  -- `set_step` with the key that its segment stands for.
  set_step-adds :
      (segment : String) (hs : List T) (f : PathTrie T → PathTrie T) (rest : List String)
      (t : PathTrie T)
      → Adds f (pattern_of rest) hs
      → Perm
          (entries (set_step segment hs f t))
          (entries t ++ here (pattern_of (segment ∷ rest)) hs)
  unfolding set_step entries pattern_of
  set_step-adds segment hs f rest (node content children wild templ name multi networks) h =
      elim (Bool-cases (str_eq segment ">")) [
        | inl e ↦ rw e (
            perm-append_front (here [] content) _ (here (all_left ∷ []) hs) (
              perm-append_back _ (here (all_left ∷ []) multi) (here (all_left ∷ []) hs) (
                subst (λ es. Perm es (here (all_left ∷ []) multi ++ here (all_left ∷ []) hs))
                  (sym (map-append _ multi hs)) (Perm.refl _))))
        | inr e ↦ elim (Bool-cases (str_eq segment "*")) [
          | inl e' ↦
              rw (e, e')
                (perm-append_front (here [] content) _ _ (
                  perm-append_front (here (all_left ∷ []) multi) _ _ (
                    perm-append_front (entries_children children) _ _ (
                      perm-append_back (below_key parameter (entries_child templ))
                        (below_key any_one (entries_child wild)) _
                        (child-adds f any_one (pattern_of rest) hs wild h)))))
          | inr e' ↦ elim (Bool-cases (is_template_param segment)) [
            | inl e'' ↦
                rw (e, e', e'')
                  (perm-append_front (here [] content) _ _ (
                    perm-append_front (here (all_left ∷ []) multi) _ _ (
                      perm-append_front (entries_children children) _ _ (
                        perm-append_front (below_key any_one (entries_child wild))
                          (below_key parameter (entries_child templ)) _
                          (child-adds f parameter (pattern_of rest) hs templ h)))))
            | inr e'' ↦
                rw (e, e', e'')
                  (perm-append_front (here [] content) _ _ (
                    perm-append_front (here (all_left ∷ []) multi) _ _ (
                      perm-append_back _ (entries_children children) _
                        (upsert_child-adds f segment (pattern_of rest) hs children h))))
          ]
        ]
      ]

  -- Registering handlers under a path adds one entry for each of them, under the path's pattern,
  -- and keeps all others, up to the order of entries.
  pub set_values_internal-adds :
      (segments : List String) (hs : List T) (t : PathTrie T)
      → Perm
          (entries (set_values_internal segments hs t))
          (entries t ++ here (pattern_of segments) hs)
  unfolding set_values_internal entries pattern_of
  set_values_internal-adds [] hs (node content children wild templ name multi networks) =
      perm-append_back _ (here [] content) (here [] hs) (
        subst (λ es. Perm es (here [] content ++ here [] hs)) (sym (map-append _ content hs))
          (Perm.refl _))
  set_values_internal-adds (segment ∷ rest) hs t =
      set_step-adds segment hs (set_values_internal rest hs) rest t
        (set_values_internal-adds rest hs)
