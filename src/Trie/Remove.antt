-- ===== src/Trie/Remove.antt =====
-- Dropping handlers of a path drops entries under its pattern, and no others: the lemmas on lists of
-- entries and on a node's map.
use rust_node.Base.{
  String, str_eq, eq_iff, ◌≡◌, refl, sym, ap, ap₂, subst, ◌∙◌, Bool, true, false, ◌&&◌, not, List,
  [], ◌∷◌, ◌++◌, none, if◌then◌else◌, filter, filter-append, Bool-cases, inl, inr, arith,
}
use rust_node.Trie.Entries.{
  Key, exactly, key_eq, keys_eq, below_key, here, entries, entries_children, entries_child, IsTrie,
  AreDistinct, IsTrieChild,
}
use rust_node.Trie.{
  PathTrie, Children, Child, vacant, child, absent, present, get_child, modify_child, map_child,
}

module _ {ℓ} {T : Type ℓ} (p : T → Bool) where
  -- The entries but for those under the pattern whose handler passes the test.
  abbrev pub without : List Key → List (List Key × T) → List (List Key × T)
  without ks es = filter (λ e. not (keys_eq e.0 ks && p e.1)) es

  pub without-append :
      (ks : List Key) (es fs : List (List Key × T))
      → without ks (es ++ fs) ≡ without ks es ++ without ks fs
  without-append ks es fs = filter-append (λ e. not (keys_eq e.0 ks && p e.1)) es fs

  pub without-append_five :
      (ks : List Key) (a b c d e : List (List Key × T))
      → without ks (a ++ (b ++ (c ++ (d ++ e))))
        ≡ without ks a ++ (without ks b ++ (without ks c ++ (without ks d ++ without ks e)))
  without-append_five ks a b c d e =
      without-append ks a (b ++ (c ++ (d ++ e)))
      ∙ ap (◌++◌ (without ks a)) (
          without-append ks b (c ++ (d ++ e))
          ∙ ap (◌++◌ (without ks b))
              (without-append ks c (d ++ e) ∙ ap (◌++◌ (without ks c)) (without-append ks d e)))

  pub without-here :
      (ks js : List Key) (hs : List T)
      → without ks (here js hs)
        ≡ (if keys_eq js ks then here js (filter (λ h. not (p h)) hs) else here js hs)
  without-here ks js [] = ground arith
  without-here ks js (h ∷ hs) = ground (arith, without-here ks js hs)

  pub without-below_key :
      (k j : Key) (ks : List Key) (es : List (List Key × T))
      → without (k ∷ ks) (below_key j es)
        ≡ (if key_eq j k then below_key j (without ks es) else below_key j es)
  unfolding keys_eq
  without-below_key k j ks [] = ground arith
  without-below_key k j ks (e ∷ es) = ground (arith, without-below_key k j ks es)

  pub without_end :
      (j : Key) (es : List (List Key × T)) → without [] (below_key j es) ≡ below_key j es
  unfolding keys_eq
  without_end j [] = refl
  without_end j (e ∷ es) = ap (◌∷◌ (j ∷ e.0, e.1)) (without_end j es)

  pub children_end : (c : Children T) → without [] (entries_children c) ≡ entries_children c
  unfolding entries
  children_end vacant = refl
  children_end (child k t r) =
      without-append [] (below_key (exactly k) (entries t)) (entries_children r)
      ∙ ap₂ ◌++◌ (without_end (exactly k) (entries t)) (children_end r)

  -- A change below a node that drops the entries of a pattern.
  abbrev pub Drops : (PathTrie T → PathTrie T) → List Key → Type ℓ
  Drops f ks = (t : PathTrie T) → IsTrie t → entries (f t) ≡ without ks (entries t)

  -- A pattern that goes on with another kind of key leaves the children as they are.
  pub children_other :
      (k : Key) (ks : List Key) (c : Children T)
      → ((s : String) → key_eq (exactly s) k ≡ false)
      → without (k ∷ ks) (entries_children c) ≡ entries_children c
  unfolding entries
  children_other k ks vacant h = refl
  children_other k ks (child s t r) h =
      without-append (k ∷ ks) (below_key (exactly s) (entries t)) (entries_children r)
      ∙ ap₂ ◌++◌ (without-below_key k (exactly s) ks (entries t) ∙ rw (h s))
          (children_other k ks r h)

  children_kept :
      (key : String) (ks : List Key) (c : Children T)
      → get_child key c ≡ none
      → without (exactly key ∷ ks) (entries_children c) ≡ entries_children c
  unfolding get_child entries key_eq
  children_kept key ks vacant h = refl
  children_kept key ks (child k t r) h = elim (Bool-cases (str_eq k key)) [
    | inl e ↦ cc (rw e at h)
    | inr e ↦
        without-append (exactly key ∷ ks) (below_key (exactly k) (entries t)) (entries_children r)
        ∙ ap₂ ◌++◌ (without-below_key (exactly key) (exactly k) ks (entries t) ∙ rw e)
            (children_kept key ks r (rw e at h))
  ]

  pub modify_child-Drops :
      (key : String) (ks : List Key) (f : PathTrie T → PathTrie T) (c : Children T)
      → Drops f ks
      → AreDistinct c
      → entries_children (modify_child key f c) ≡ without (exactly key ∷ ks) (entries_children c)
  unfolding modify_child entries IsTrie key_eq
  modify_child-Drops key ks f vacant h d = refl
  modify_child-Drops key ks f (child k t r) h d =
      elim (Bool-cases (str_eq k key)) [
        | inl e ↦ rw e (
            ap₂ ◌++◌ (ap (below_key (exactly k)) (h t d.1)) (
              sym (
                children_kept key ks r
                  (subst (λ j. get_child j r ≡ none) ((eq_iff k key).0 e) d.0))))
        | inr e ↦
            rw e
              (ap (◌++◌ (below_key (exactly k) (entries t))) (modify_child-Drops key ks f r h d.2))
      ]
      ∙ sym (
          without-append (exactly key ∷ ks) (below_key (exactly k) (entries t)) (entries_children r)
          ∙ ap (λ es. es ++ without (exactly key ∷ ks) (entries_children r))
              (without-below_key (exactly key) (exactly k) ks (entries t)))

  pub map_child-Drops :
      (k : Key) (ks : List Key) (f : PathTrie T → PathTrie T) (c : Child T)
      → key_eq k k ≡ true
      → Drops f ks
      → IsTrieChild c
      → below_key k (entries_child (map_child f c))
        ≡ without (k ∷ ks) (below_key k (entries_child c))
  unfolding entries IsTrie
  map_child-Drops k ks f absent e h d = refl
  map_child-Drops k ks f (present t) e h d =
      ap (below_key k) (h t d) ∙ sym (without-below_key k k ks (entries t) ∙ rw e)

  -- A child under another kind of key keeps its entries.
  pub child_other :
      (k j : Key) (ks : List Key) (c : Child T)
      → key_eq j k ≡ false
      → without (k ∷ ks) (below_key j (entries_child c)) ≡ below_key j (entries_child c)
  child_other k j ks c e = without-below_key k j ks (entries_child c) ∙ rw e
