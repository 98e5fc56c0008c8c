-- ===== src/Trie/Selection.antt =====
-- A search by a pattern gives the handlers of the entries that the pattern selects.
use rust_node.Base.{
  String, str_eq, eq_iff, ◌≡◌, refl, sym, ap, ap₂, subst, ◌∙◌, true, false, List, [], ◌∷◌, ◌++◌,
  append-nil, append_assoc, none, Bool-cases, inl, inr,
}
use rust_node.Trie.Entries.{
  Key, exactly, any_one, parameter, all_left, key_eq, below_key, here, entries, entries_children,
  entries_child, IsTrie, AreDistinct, IsTrieChild,
}
use rust_node.Trie.Search.{
  PathTrieMatch, stamp, no_params, collect_entry, collect_child, collect_children,
  collect_all_handlers, collect_all_children, collect_all_child, collect_wildcard_matches,
}
use rust_node.Trie.Contents.{contents, contents-append, contents-stamp}
use rust_node.Trie.{PathTrie, Children, Child, node, vacant, child, absent, present, get_child}
use rust_node.Trie.Picking.{
  selected, picks, picks-append, picks-append_five, picks-here, picks_end, picks-below_key, values,
  values-here, values-below_key, values-append,
}

mutual
  unfolding collect_all_handlers entries values

  all_contents {ℓ} :
      {T : Type ℓ} (t : PathTrie T) (results : List (PathTrieMatch T))
      → contents (collect_all_handlers t results) ≡ contents results ++ values (entries t)
  all_contents (node content children wild templ name multi networks) results =
      rw
        (
          all_child templ _,
          all_child wild _,
          all_children children _,
          contents-append (results ++ stamp no_params content) (stamp no_params multi),
          contents-append results (stamp no_params content),
          contents-stamp no_params content,
          contents-stamp no_params multi,
        )
        (simp (append_assoc, values-append, values-here, values-below_key))

  all_children {ℓ} :
      {T : Type ℓ} (c : Children T) (results : List (PathTrieMatch T))
      → contents (collect_all_children c results) ≡ contents results ++ values (entries_children c)
  all_children vacant results = sym (append-nil _)
  all_children (child k t r) results =
      rw (all_children r _, all_contents t results)
        (simp (append_assoc, values-append, values-below_key))

  all_child {ℓ} :
      {T : Type ℓ} (c : Child T) (results : List (PathTrieMatch T))
      → contents (collect_all_child c results) ≡ contents results ++ values (entries_child c)
  all_child absent results = sym (append-nil _)
  all_child (present t) results = all_contents t results

not_star : (s : String) → str_eq s ">" ≡ true → str_eq s "*" ≡ false
not_star s h = subst (λ t. str_eq t "*" ≡ false) (sym ((eq_iff s ">").0 h)) refl

not_multi : (s : String) → str_eq s "*" ≡ true → str_eq s ">" ≡ false
not_multi s h = subst (λ t. str_eq t ">" ≡ false) (sym ((eq_iff s "*").0 h)) refl

all_selected :
    (s : String) (ss : List String) (ks : List Key)
    → str_eq s ">" ≡ true
    → selected (s ∷ ss) ks ≡ true
unfolding selected
all_selected s ss [] h = rw (not_star s h, h) refl
all_selected s ss (k ∷ ks) h = rw (not_star s h, h) refl

module _ {ℓ} {T : Type ℓ} where
  -- A search below a node that appends what the rest of the pattern picks.
  abbrev Picks :
      (PathTrie T → List (PathTrieMatch T) → List (PathTrieMatch T)) → List String → Type ℓ
  Picks run ss =
      (t : PathTrie T) (results : List (PathTrieMatch T))
      → IsTrie t
      → contents (run t results) ≡ contents results ++ picks ss (entries t)

  collect_child-picks :
      (run : PathTrie T → List (PathTrieMatch T) → List (PathTrieMatch T)) (ss : List String)
      (c : Child T) (results : List (PathTrieMatch T))
      → Picks run ss
      → IsTrieChild c
      → contents (collect_child run c results) ≡ contents results ++ picks ss (entries_child c)
  unfolding entries IsTrie
  collect_child-picks run ss absent results h d = sym (append-nil _)
  collect_child-picks run ss (present t) results h d = h t results d

  module _ (run : PathTrie T → List (PathTrieMatch T) → List (PathTrieMatch T)) (s : String)
      (ss : List String) (h : Picks run ss) (multi : str_eq s ">" ≡ false) where
    collect_children-picks :
        (c : Children T) (results : List (PathTrieMatch T))
        → str_eq s "*" ≡ true
        → AreDistinct c
        → contents (collect_children run c results)
          ≡ contents results ++ picks (s ∷ ss) (entries_children c)
    unfolding entries IsTrie collect_children key_eq
    collect_children-picks vacant results star d = sym (append-nil _)
    collect_children-picks (child k t r) results star d =
        rw
          (
            collect_children-picks r (run t results) star d.2,
            h t results d.1,
            picks-append (s ∷ ss) (below_key (exactly k) (entries t)) (entries_children r),
            picks-below_key s ss (exactly k) (entries t) multi,
            star,
          )
          (simp append_assoc)

    collect_entry-picks :
        (c : Children T) (results : List (PathTrieMatch T))
        → str_eq s "*" ≡ false
        → AreDistinct c
        → contents (collect_entry run (get_child s c) results)
          ≡ contents results ++ picks (s ∷ ss) (entries_children c)
    unfolding entries IsTrie get_child key_eq contents
    collect_entry-picks vacant results star d = sym (append-nil _)
    collect_entry-picks (child k t r) results star d =
        let joined =
          picks-append (s ∷ ss) (below_key (exactly k) (entries t)) (entries_children r) in
        let below = picks-below_key s ss (exactly k) (entries t) multi in
        elim (Bool-cases (str_eq k s)) [
          | inl e ↦
              let gone : get_child s r ≡ none =
                subst (λ j. get_child j r ≡ none) ((eq_iff k s).0 e) d.0 in
              let no_more : [] ≡ picks (s ∷ ss) (entries_children r) =
                rw gone at (collect_entry-picks r [] star d.2) in
              rw (joined, below, star, e, ← no_more, append-nil, h t results d.1) refl
          | inr e ↦ rw (joined, below, star, e) (collect_entry-picks r results star d.2)
        ]

  picks_all :
      (s : String) (ss : List String) (es : List (List Key × T))
      → str_eq s ">" ≡ true
      → picks (s ∷ ss) es ≡ values es
  unfolding values
  picks_all s ss [] h = refl
  picks_all s ss (e ∷ es) h = rw (all_selected s ss e.0 h) (ap (◌∷◌ e.1) (picks_all s ss es h))

  picks_children_end : (c : Children T) → picks [] (entries_children c) ≡ []
  unfolding entries
  picks_children_end vacant = refl
  picks_children_end (child k t r) =
      picks-append [] (below_key (exactly k) (entries t)) (entries_children r)
      ∙ ap₂ ◌++◌ (picks_end (exactly k) (entries t)) (picks_children_end r)

  -- A search by a pattern appends the handlers of the entries that the pattern selects, in the
  -- trie's order, in a trie whose maps have distinct keys.
  pub collect_wildcard_matches-contents :
      (segments : List String) (t : PathTrie T) (results : List (PathTrieMatch T))
      → IsTrie t
      → contents (collect_wildcard_matches segments t results)
        ≡ contents results ++ picks segments (entries t)
  unfolding collect_wildcard_matches entries IsTrie selected key_eq
  collect_wildcard_matches-contents [] (node content children wild templ name multi networks)
        results d =
      rw
        (
          contents-append results (stamp no_params content),
          contents-stamp no_params content,
          picks-append_five [] (here [] content) (here (all_left ∷ []) multi)
              (entries_children children) (below_key any_one (entries_child wild))
              (below_key parameter (entries_child templ)),
          picks-here [] [] content,
          picks-here [] (all_left ∷ []) multi,
          picks_children_end children,
          picks_end any_one (entries_child wild),
          picks_end parameter (entries_child templ),
        )
        (simp append-nil)
  collect_wildcard_matches-contents (s ∷ ss) (node content children wild templ name multi networks)
        results d =
      let run = collect_wildcard_matches ss in
      let h = collect_wildcard_matches-contents ss in
      let five =
        picks-append_five (s ∷ ss) (here [] content) (here (all_left ∷ []) multi)
          (entries_children children) (below_key any_one (entries_child wild))
          (below_key parameter (entries_child templ)) in
      let own = picks-here (s ∷ ss) [] content in
      let left = picks-here (s ∷ ss) (all_left ∷ []) multi in
      elim (Bool-cases (str_eq s "*")) [
        | inl star ↦
            let plain = not_multi s star in
            let below_wild = picks-below_key s ss any_one (entries_child wild) plain in
            let below_templ = picks-below_key s ss parameter (entries_child templ) plain in
            rw
              (
                five,
                own,
                left,
                below_wild,
                below_templ,
                star,
                collect_child-picks run ss templ _ h d.2,
                collect_child-picks run ss wild _ h d.1,
                collect_children-picks run s ss h plain children results star d.0,
              )
              (simp append_assoc)
        | inr star ↦ elim (Bool-cases (str_eq s ">")) [
          | inl all ↦
              rw (picks_all s ss _ all, star, all)
                (all_contents (node content children wild templ name multi networks) results)
          | inr plain ↦
              let below_wild = picks-below_key s ss any_one (entries_child wild) plain in
              let below_templ = picks-below_key s ss parameter (entries_child templ) plain in
              rw (five, own, left, below_wild, below_templ, star, plain)
                (rw append-nil (collect_entry-picks run s ss h plain children results star d.0))
        ]
      ]
