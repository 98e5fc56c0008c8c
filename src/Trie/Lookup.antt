-- ===== src/Trie/Lookup.antt =====
-- What a search gives, with no state: the entries that cover the segments, in the trie's order.
use rust_node.Base.{
  String, ◌≡◌, refl, ap, List, [], ◌∷◌, ◌++◌, append-nil, append_assoc, Option, none, some,
  Option-cases, inl, inr,
}
use rust_node.Base.Assoc.{lookup, insert, remove-insert_absent, insert-insert_present}
use rust_node.Trie.Search.{
  PathTrieMatch, Found, Params, stamp, visit_entry, visit_child, visit_template, restore,
  find_matches_internal,
}
use rust_node.Trie.{PathTrie, Child, node, absent, present, get_child}

-- The parameters below a template child.
abbrev pub bind_param : Option String → String → Params → Params
bind_param none segment params = params
bind_param (some name) segment params = insert name segment params

module _ {ℓ} {T : Type ℓ} where
  -- The matches below a node, under the parameters met on the way.
  abbrev pub entry_matches :
      (PathTrie T → List (PathTrieMatch T)) → Option (PathTrie T) → List (PathTrieMatch T)
  entry_matches g none = []
  entry_matches g (some t) = g t

  abbrev pub child_matches :
      (PathTrie T → List (PathTrieMatch T)) → Child T → List (PathTrieMatch T)
  child_matches g absent = []
  child_matches g (present t) = g t

  unfoldable pub matches_below : List String → Params → PathTrie T → List (PathTrieMatch T)
  matches_below [] params (node content children wild templ name multi networks) =
      stamp params content
  matches_below (segment ∷ rest) params (node content children wild templ name multi networks) =
      stamp params multi
      ++ (entry_matches (matches_below rest params) (get_child segment children)
          ++ (child_matches (matches_below rest params) wild
              ++ child_matches (matches_below rest (bind_param name segment params)) templ))

  abbrev Runs :
      (PathTrie T → Found T → Found T) → (Params → PathTrie T → List (PathTrieMatch T)) → Type ℓ
  Runs f g =
      (t : PathTrie T) (results : List (PathTrieMatch T)) (params : Params)
      → f t (results, params) ≡ (results ++ g params t, params)

  module _ (f : PathTrie T → Found T → Found T) (g : Params → PathTrie T → List (PathTrieMatch T))
      (h : Runs f g) (results : List (PathTrieMatch T)) (params : Params) where
    visit_entry-eq :
        (o : Option (PathTrie T))
        → visit_entry f o (results, params) ≡ (results ++ entry_matches (g params) o, params)
    visit_entry-eq none = rw append-nil refl
    visit_entry-eq (some t) = h t results params

    visit_child-eq :
        (c : Child T)
        → visit_child f c (results, params) ≡ (results ++ child_matches (g params) c, params)
    visit_child-eq absent = rw append-nil refl
    visit_child-eq (present t) = h t results params

    -- The parameter is put back as it was.
    restore_lem :
        (name segment : String)
        → restore name (lookup name params) (insert name segment params) ≡ params
    restore_lem name segment = elim (Option-cases (lookup name params)) [
      | inl e ↦ rw e (remove-insert_absent name segment params e)
      | inr (v, e) ↦ rw e (insert-insert_present name segment v params e)
    ]

    visit_template-eq :
        (segment : String) (c : Child T) (name : Option String)
        → visit_template f segment c name (results, params)
          ≡ (results ++ child_matches (g (bind_param name segment params)) c, params)
    unfolding visit_template
    visit_template-eq segment absent name = rw append-nil refl
    visit_template-eq segment (present t) none = h t results params
    visit_template-eq segment (present t) (some name) =
        let found = h t results (insert name segment params) in
        let restored = restore_lem name segment in
        rw found (ap (λ q. (results ++ g (insert name segment params) t, q)) restored)

  -- The search with its two mutable arguments appends the matches below the node, in order, and
  -- leaves the parameters as they were when it was called.
  pub find_matches_internal-eq :
      (segments : List String) (t : PathTrie T) (results : List (PathTrieMatch T)) (params : Params)
      → find_matches_internal segments t (results, params)
        ≡ (results ++ matches_below segments params t, params)
  unfolding find_matches_internal matches_below
  find_matches_internal-eq [] (node content children wild templ name multi networks) results
        params =
      refl
  find_matches_internal-eq (segment ∷ rest) (node content children wild templ name multi networks)
        results params =
      let f = find_matches_internal rest in
      let g = λ (ps : Params) (t : PathTrie T). matches_below rest ps t in
      let h = find_matches_internal-eq rest in
      rw
        (
          visit_entry-eq f g h (results ++ stamp params multi) params (get_child segment children),
          visit_child-eq f g h _ params wild,
          visit_template-eq f g h _ params segment templ name,
        )
        (simp append_assoc)
