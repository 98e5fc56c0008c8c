-- ===== src/Trie/RemoveValues.antt =====
-- `remove_values_internal`, entry by entry; a multi-wildcard is not among what it removes.
use mathlib.Core.List.Perm
use rust_node.Base.{
  String, str_eq, eq_iff, ◌≡◌, refl, sym, ap, ap₂, subst, ◌∙◌, Bool, true, false, not, List, [],
  ◌∷◌, ◌++◌, any, if◌then◌else◌, filter, filter-append, Bool-cases, inl, inr, arith, Perm,
  perm-filter,
}
use rust_node.Topic.Segment.{is_template_param}
use rust_node.Trie.Entries.{
  Key, exactly, any_one, parameter, all_left, key_eq, keys_eq, pattern_of, below_key, here, entries,
  entries_children, entries_child, IsTrie,
}
use rust_node.Trie.Insert.{set_values_internal-adds}
use rust_node.Trie.WellFormed.{set_values_internal-IsTrie, new_trie-IsTrie}
use rust_node.Trie.Remove.{
  without, without-append_five, without-here, without_end, children_end, Drops, children_other,
  modify_child-Drops, map_child-Drops, child_other,
}
use rust_node.Trie.{
  PathTrie, node, new_trie, remove_step, remove_values_internal, set_values_internal,
}

-- How `remove_values_internal` reads a path: it has no case for ">", which it takes for a literal.
unfoldable pub removed_pattern : List String → List Key
removed_pattern [] = []
removed_pattern (segment ∷ rest) =
    let later = removed_pattern rest in
    if str_eq segment "*"
    then any_one ∷ later
    else if is_template_param segment
    then parameter ∷ later
    else exactly segment ∷ later

-- `Vec::clear` takes every handler.
abbrev pub every {ℓ} : {T : Type ℓ} → T → Bool
every h = true

filter_none {ℓ} : {T : Type ℓ} (hs : List T) → filter (λ h. not (every h)) hs ≡ []
filter_none [] = refl
filter_none (h ∷ hs) = filter_none hs

exactly-ne :
    (s : String) → (key_eq (exactly s) any_one ≡ false) × (key_eq (exactly s) parameter ≡ false)
unfolding key_eq
exactly-ne s = (refl, refl)

module _ {ℓ} {T : Type ℓ} where
  remove_step-Drops :
      (segment : String) (rest : List String) (f : PathTrie T → PathTrie T)
      → Drops every f (removed_pattern rest)
      → Drops every (remove_step segment f) (removed_pattern (segment ∷ rest))
  unfolding remove_step entries IsTrie removed_pattern keys_eq
  remove_step-Drops segment rest f h (node content children wild templ name multi networks) d =
      let ks = removed_pattern rest in
      elim (Bool-cases (str_eq segment "*")) [
        | inl e ↦ rw e (
            sym (
              without-append_five every (any_one ∷ ks) (here [] content)
                (here (all_left ∷ []) multi) (entries_children children)
                (below_key any_one (entries_child wild)) (below_key parameter (entries_child templ))
              ∙ ap₂ ◌++◌ (without-here every (any_one ∷ ks) [] content) (
                  ap₂ ◌++◌ (without-here every (any_one ∷ ks) (all_left ∷ []) multi) (
                    ap₂ ◌++◌ (children_other every any_one ks children (λ s. (exactly-ne s).0)) (
                      ap₂ ◌++◌ (sym (map_child-Drops every any_one ks f wild refl h d.1))
                        (child_other every any_one parameter ks templ refl))))))
        | inr e ↦ elim (Bool-cases (is_template_param segment)) [
          | inl e' ↦
              rw (e, e')
                (sym (
                  without-append_five every (parameter ∷ ks) (here [] content)
                    (here (all_left ∷ []) multi) (entries_children children)
                    (below_key any_one (entries_child wild))
                    (below_key parameter (entries_child templ))
                  ∙ ap₂ ◌++◌ (without-here every (parameter ∷ ks) [] content) (
                      ap₂ ◌++◌ (without-here every (parameter ∷ ks) (all_left ∷ []) multi) (
                        ap₂ ◌++◌
                          (children_other every parameter ks children (λ s. (exactly-ne s).1))
                          (ap₂ ◌++◌ (child_other every parameter any_one ks wild refl)
                            (sym (map_child-Drops every parameter ks f templ refl h d.2)))))))
          | inr e' ↦
              rw (e, e')
                (sym (
                  without-append_five every (exactly segment ∷ ks) (here [] content)
                    (here (all_left ∷ []) multi) (entries_children children)
                    (below_key any_one (entries_child wild))
                    (below_key parameter (entries_child templ))
                  ∙ ap₂ ◌++◌ (without-here every (exactly segment ∷ ks) [] content) (
                      ap₂ ◌++◌ (without-here every (exactly segment ∷ ks) (all_left ∷ []) multi) (
                        ap₂ ◌++◌ (sym (modify_child-Drops every segment ks f children h d.0)) (
                          ap₂ ◌++◌ (child_other every (exactly segment) any_one ks wild refl)
                            (child_other every (exactly segment) parameter ks templ refl))))))
        ]
      ]

  -- Removing a path's handlers drops the entries under the path, read with ">" as a literal, and
  -- leaves all others, in their order.
  pub remove_values_internal-drops :
      (segments : List String) (t : PathTrie T)
      → IsTrie t
      → entries (remove_values_internal segments t)
        ≡ without every (removed_pattern segments) (entries t)
  unfolding remove_values_internal entries removed_pattern keys_eq
  remove_values_internal-drops [] (node content children wild templ name multi networks) d = sym (
      without-append_five every [] (here [] content) (here (all_left ∷ []) multi)
        (entries_children children) (below_key any_one (entries_child wild))
        (below_key parameter (entries_child templ))
      ∙ ap₂ ◌++◌ (without-here every [] [] content ∙ ap (here []) (filter_none content)) (
          ap₂ ◌++◌ (without-here every [] (all_left ∷ []) multi) (
            ap₂ ◌++◌ (children_end every children) (
              ap₂ ◌++◌ (without_end every any_one (entries_child wild))
                (without_end every parameter (entries_child templ))))))
  remove_values_internal-drops (segment ∷ rest) t d =
      remove_step-Drops segment rest (remove_values_internal rest)
        (remove_values_internal-drops rest) t d

  -- Registrations in an empty trie of one network, the newest first.
  unfoldable pub fill : List (List String × List T) → PathTrie T
  fill [] = new_trie
  fill ((segments, handlers) ∷ older) = set_values_internal segments handlers (fill older)

  fill-IsTrie : (registered : List (List String × List T)) → IsTrie (fill registered)
  unfolding fill
  fill-IsTrie [] = new_trie-IsTrie T
  fill-IsTrie ((segments, hs) ∷ older) =
      set_values_internal-IsTrie segments hs (fill older) (fill-IsTrie older)

-- A pattern with ">" for a literal.
has_literal_multi : List Key → Bool
has_literal_multi ks = any (key_eq (exactly ">")) ks

pattern_of-plain : (segments : List String) → has_literal_multi (pattern_of segments) ≡ false
unfolding has_literal_multi pattern_of key_eq
pattern_of-plain [] = refl
pattern_of-plain (s ∷ ss) = ground (arith, pattern_of-plain ss, eq_iff s ">", eq_iff ">" s)

removed_pattern-literal_multi :
    (segments : List String)
    → any (λ s. str_eq s ">") segments ≡ true
    → has_literal_multi (removed_pattern segments) ≡ true
unfolding has_literal_multi removed_pattern key_eq is_template_param
removed_pattern-literal_multi [] h = cc
removed_pattern-literal_multi (s ∷ ss) h = elim (Bool-cases (str_eq s ">")) [
  | inl e ↦
      subst (λ t. has_literal_multi (removed_pattern (t ∷ ss)) ≡ true) (sym ((eq_iff s ">").0 e))
        refl
  | inr e ↦ ground (arith, removed_pattern-literal_multi ss)
]

eq_of_key_eq : (j k : Key) → key_eq j k ≡ true → j ≡ k
unfolding key_eq
eq_of_key_eq (exactly s) (exactly t) h = ap exactly ((eq_iff s t).0 h)
eq_of_key_eq any_one any_one h = refl
eq_of_key_eq parameter parameter h = refl
eq_of_key_eq all_left all_left h = refl
eq_of_key_eq _ _ h = cc

keys_eq-literal_multi :
    (js ks : List Key)
    → has_literal_multi ks ≡ true
    → keys_eq js ks ≡ true
    → has_literal_multi js ≡ true
unfolding has_literal_multi keys_eq key_eq
keys_eq-literal_multi [] [] h e = h
keys_eq-literal_multi [] (k ∷ ks) h e = cc
keys_eq-literal_multi (j ∷ js) [] h e = cc
keys_eq-literal_multi (j ∷ js) (k ∷ ks) h e =
    ground (arith, eq_of_key_eq j k, keys_eq-literal_multi js ks)

module _ {ℓ} {T : Type ℓ} where
  literal_multis : List (List Key × T) → List (List Key × T)
  literal_multis = filter (λ e. has_literal_multi e.0)

  literal_multis-here :
      (ks : List Key) (hs : List T)
      → has_literal_multi ks ≡ false
      → literal_multis (here ks hs) ≡ []
  unfolding literal_multis
  literal_multis-here ks [] e = refl
  literal_multis-here ks (h ∷ hs) e = rw e (literal_multis-here ks hs e)

  fill-plain :
      (registered : List (List String × List T)) → literal_multis (entries (fill registered)) ≡ []
  unfolding fill literal_multis entries
  fill-plain [] = refl
  fill-plain ((segments, hs) ∷ older) = Perm.eq-nil (
      subst (Perm (literal_multis (entries (set_values_internal segments hs (fill older)))))
        (filter-append (λ e. has_literal_multi e.0) (entries (fill older))
            (here (pattern_of segments) hs)
          ∙ ap₂ ◌++◌ (fill-plain older)
              (literal_multis-here (pattern_of segments) hs (pattern_of-plain segments)))
        (perm-filter (λ e. has_literal_multi e.0)
          (set_values_internal-adds segments hs (fill older))))

  without_plain :
      (ks : List Key) (es : List (List Key × T))
      → has_literal_multi ks ≡ true
      → literal_multis es ≡ []
      → without every ks es ≡ es
  unfolding literal_multis
  without_plain ks [] h e = refl
  without_plain ks (x ∷ es) h e = elim (Bool-cases (has_literal_multi x.0)) [
    | inl bad ↦ cc (rw bad at e)
    | inr fine ↦
        let other : keys_eq x.0 ks ≡ false = ground (arith, keys_eq-literal_multi x.0 ks h) in
        rw other (ap (◌∷◌ x) (without_plain ks es h (rw fine at e)))
  ]

  -- Whatever is registered, removing the handlers of a path with a multi-wildcard removes nothing.
  pub remove_values_internal_multi_wildcard :
      (segments : List String) (registered : List (List String × List T))
      → any (λ s. str_eq s ">") segments ≡ true
      → entries (remove_values_internal segments (fill registered)) ≡ entries (fill registered)
  remove_values_internal_multi_wildcard segments registered h =
      remove_values_internal-drops segments (fill registered) (fill-IsTrie registered)
      ∙ without_plain (removed_pattern segments) (entries (fill registered))
          (removed_pattern-literal_multi segments h) (fill-plain registered)
