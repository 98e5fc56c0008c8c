-- ===== src/Trie/RemoveHandler.antt =====
-- `remove_handler_internal`: which entries it drops, and what it answers.
use rust_node.Base.{
  String, str_eq, ◌≡◌, refl, sym, ap, ap₂, ◌∙◌, Bool, false, List, [], ◌∷◌, ◌++◌, Bool-cases, inl,
  inr,
}
use rust_node.Topic.Segment.{is_template_param}
use rust_node.Trie.Entries.{
  exactly, any_one, parameter, all_left, key_eq, keys_eq, pattern_of, below_key, here, entries,
  entries_children, entries_child, IsTrie,
}
use rust_node.Trie.Remove.{
  without, without-append_five, without-here, without_end, children_end, Drops, children_other,
  modify_child-Drops, map_child-Drops, child_other,
}
use rust_node.Trie.Removal.{
  retain, try_child, try_entry, remove_handler_step, remove_handler_internal,
}
use rust_node.Trie.{
  PathTrie, Children, Child, node, vacant, child, absent, present, modify_child, map_child,
}

exactly-other :
    (s : String)
    → (key_eq (exactly s) all_left ≡ false)
      × (key_eq (exactly s) any_one ≡ false)
      × (key_eq (exactly s) parameter ≡ false)
unfolding key_eq
exactly-other s = (refl, refl, refl)

module _ {ℓ} {T : Type ℓ} where
  try_child-eq :
      (f : PathTrie T → PathTrie T × Bool) (c : Child T)
      → (try_child f c).0 ≡ map_child (λ t. (f t).0) c
  unfolding try_child
  try_child-eq f absent = refl
  try_child-eq f (present t) = refl

  try_entry-eq :
      (key : String) (f : PathTrie T → PathTrie T × Bool) (c : Children T)
      → (try_entry key f c).0 ≡ modify_child key (λ t. (f t).0) c
  unfolding try_entry modify_child
  try_entry-eq key f vacant = refl
  try_entry-eq key f (child k t r) = elim (Bool-cases (str_eq k key)) [
    | inl e ↦ rw e refl
    | inr e ↦ rw e (ap (child k t) (try_entry-eq key f r))
  ]

module _ {ℓ} {T : Type ℓ} (p : T → Bool) where
  remove_handler_step-Drops :
      (segment : String) (rest : List String) (f : PathTrie T → PathTrie T × Bool)
      → Drops p (λ t. (f t).0) (pattern_of rest)
      → Drops p (λ t. (remove_handler_step p segment f t).0) (pattern_of (segment ∷ rest))
  unfolding remove_handler_step entries IsTrie pattern_of keys_eq retain
  remove_handler_step-Drops segment rest f h (node content children wild templ name multi networks)
        d =
      let ks = pattern_of rest in
      let g = λ (t : PathTrie T). (f t).0 in
      elim (Bool-cases (str_eq segment ">")) [
        | inl e ↦ rw e (
            sym (
              without-append_five p (all_left ∷ []) (here [] content) (here (all_left ∷ []) multi)
                (entries_children children) (below_key any_one (entries_child wild))
                (below_key parameter (entries_child templ))
              ∙ ap₂ ◌++◌ (without-here p (all_left ∷ []) [] content) (
                  ap₂ ◌++◌ (without-here p (all_left ∷ []) (all_left ∷ []) multi) (
                    ap₂ ◌++◌ (children_other p all_left [] children (λ s. (exactly-other s).0)) (
                      ap₂ ◌++◌ (child_other p all_left any_one [] wild refl)
                        (child_other p all_left parameter [] templ refl))))))
        | inr e ↦ elim (Bool-cases (str_eq segment "*")) [
          | inl e' ↦
              rw (e, e', try_child-eq f wild)
                (sym (
                  without-append_five p (any_one ∷ ks) (here [] content)
                    (here (all_left ∷ []) multi) (entries_children children)
                    (below_key any_one (entries_child wild))
                    (below_key parameter (entries_child templ))
                  ∙ ap₂ ◌++◌ (without-here p (any_one ∷ ks) [] content) (
                      ap₂ ◌++◌ (without-here p (any_one ∷ ks) (all_left ∷ []) multi) (
                        ap₂ ◌++◌ (children_other p any_one ks children (λ s. (exactly-other s).1)) (
                          ap₂ ◌++◌ (sym (map_child-Drops p any_one ks g wild refl h d.1))
                            (child_other p any_one parameter ks templ refl))))))
          | inr e' ↦ elim (Bool-cases (is_template_param segment)) [
            | inl e'' ↦
                rw (e, e', e'', try_child-eq f templ)
                  (sym (
                    without-append_five p (parameter ∷ ks) (here [] content)
                      (here (all_left ∷ []) multi) (entries_children children)
                      (below_key any_one (entries_child wild))
                      (below_key parameter (entries_child templ))
                    ∙ ap₂ ◌++◌ (without-here p (parameter ∷ ks) [] content) (
                        ap₂ ◌++◌ (without-here p (parameter ∷ ks) (all_left ∷ []) multi) (
                          ap₂ ◌++◌
                            (children_other p parameter ks children (λ s. (exactly-other s).2))
                            (ap₂ ◌++◌ (child_other p parameter any_one ks wild refl)
                              (sym (map_child-Drops p parameter ks g templ refl h d.2)))))))
            | inr e'' ↦
                rw (e, e', e'', try_entry-eq segment f children)
                  (sym (
                    without-append_five p (exactly segment ∷ ks) (here [] content)
                      (here (all_left ∷ []) multi) (entries_children children)
                      (below_key any_one (entries_child wild))
                      (below_key parameter (entries_child templ))
                    ∙ ap₂ ◌++◌ (without-here p (exactly segment ∷ ks) [] content) (
                        ap₂ ◌++◌ (without-here p (exactly segment ∷ ks) (all_left ∷ []) multi) (
                          ap₂ ◌++◌ (sym (modify_child-Drops p segment ks g children h d.0)) (
                            ap₂ ◌++◌ (child_other p (exactly segment) any_one ks wild refl)
                              (child_other p (exactly segment) parameter ks templ refl))))))
          ]
        ]
      ]

  -- The handlers under the path's own pattern that pass the test are dropped, and all other entries
  -- stay, in their order; a template counts under any parameter name.
  pub remove_handler_internal-drops :
      (segments : List String) (t : PathTrie T)
      → IsTrie t
      → entries (remove_handler_internal p segments t).0
        ≡ without p (pattern_of segments) (entries t)
  unfolding remove_handler_internal entries pattern_of keys_eq retain
  remove_handler_internal-drops [] (node content children wild templ name multi networks) d = sym (
      without-append_five p [] (here [] content) (here (all_left ∷ []) multi)
        (entries_children children) (below_key any_one (entries_child wild))
        (below_key parameter (entries_child templ))
      ∙ ap₂ ◌++◌ (without-here p [] [] content) (
          ap₂ ◌++◌ (without-here p [] (all_left ∷ []) multi) (
            ap₂ ◌++◌ (children_end p children) (
              ap₂ ◌++◌ (without_end p any_one (entries_child wild))
                (without_end p parameter (entries_child templ))))))
  remove_handler_internal-drops (segment ∷ rest) t d =
      remove_handler_step-Drops segment rest (remove_handler_internal p rest)
        (remove_handler_internal-drops rest) t d
