-- ===== src/Trie/Contents.antt =====
-- The handlers that a search finds are those of the entries whose pattern covers the segments.
use rust_node.Base.{
  String, str_eq, eq_iff, ◌≡◌, refl, sym, ap, ap₂, ◌∙◌, List, [], ◌∷◌, ◌++◌, map, map-append,
  append-nil, Option, none, some, if◌then◌else◌, filter, filter-append, Bool-cases, inl, inr, arith,
}
use rust_node.Trie.Entries.{
  Key, exactly, any_one, parameter, all_left, covers, below_key, here, entries, entries_children,
  entries_child, IsTrie, AreDistinct, IsTrieChild,
}
use rust_node.Trie.Search.{PathTrieMatch, Params, stamp, Found, find_matches_internal}
use rust_node.Trie.Lookup.{
  find_matches_internal-eq, matches_below, entry_matches, child_matches, bind_param,
}
use rust_node.Trie.{PathTrie, Children, Child, node, vacant, child, absent, present, get_child}

module _ {ℓ} {T : Type ℓ} where
  -- The handlers of the entries whose pattern covers the segments.
  abbrev pub hits : List String → List (List Key × T) → List T
  hits segments es = map (λ e. e.1) (filter (λ e. covers e.0 segments) es)

  pub hits-append :
      (segments : List String) (es fs : List (List Key × T))
      → hits segments (es ++ fs) ≡ hits segments es ++ hits segments fs
  hits-append segments es fs =
      ap (map _) (filter-append (λ e. covers e.0 segments) es fs) ∙ map-append _ _ _

  pub hits-here :
      (ks : List Key) (segments : List String) (hs : List T)
      → hits segments (here ks hs) ≡ (if covers ks segments then hs else [])
  hits-here ks segments [] = ground arith
  hits-here ks segments (h ∷ hs) = ground (arith, hits-here ks segments hs)

  hits-below_key_end : (k : Key) (es : List (List Key × T)) → hits [] (below_key k es) ≡ []
  unfolding covers
  hits-below_key_end k [] = refl
  hits-below_key_end k (e ∷ es) = hits-below_key_end k es

  hits-any_one :
      (s : String) (ss : List String) (es : List (List Key × T))
      → hits (s ∷ ss) (below_key any_one es) ≡ hits ss es
  unfolding covers
  hits-any_one s ss [] = refl
  hits-any_one s ss (e ∷ es) = ground (arith, hits-any_one s ss es)

  hits-parameter :
      (s : String) (ss : List String) (es : List (List Key × T))
      → hits (s ∷ ss) (below_key parameter es) ≡ hits ss es
  unfolding covers
  hits-parameter s ss [] = refl
  hits-parameter s ss (e ∷ es) = ground (arith, hits-parameter s ss es)

  hits-exactly :
      (t s : String) (ss : List String) (es : List (List Key × T))
      → hits (s ∷ ss) (below_key (exactly t) es) ≡ (if str_eq t s then hits ss es else [])
  unfolding covers
  hits-exactly t s ss [] = ground arith
  hits-exactly t s ss (e ∷ es) = ground (arith, hits-exactly t s ss es)

  abbrev pub entry_hits : List String → Option (PathTrie T) → List T
  entry_hits ss none = []
  entry_hits ss (some t) = hits ss (entries t)

  hits_children_end : (c : Children T) → hits [] (entries_children c) ≡ []
  unfolding entries
  hits_children_end vacant = refl
  hits_children_end (child k t r) =
      hits-append [] (below_key (exactly k) (entries t)) (entries_children r)
      ∙ ap₂ ◌++◌ (hits-below_key_end (exactly k) (entries t)) (hits_children_end r)

  -- Only the child under the segment itself has entries that cover it.
  pub hits_children :
      (s : String) (ss : List String) (c : Children T)
      → AreDistinct c
      → hits (s ∷ ss) (entries_children c) ≡ entry_hits ss (get_child s c)
  unfolding entries get_child IsTrie
  hits_children s ss vacant d = refl
  hits_children s ss (child k t r) d =
      hits-append (s ∷ ss) (below_key (exactly k) (entries t)) (entries_children r)
      ∙ ap₂ ◌++◌ (hits-exactly k s ss (entries t)) (hits_children s ss r d.2)
      ∙ elim (Bool-cases (str_eq k s)) [
        | inl e ↦ rw (e, ← (eq_iff k s).0 e, d.0) (append-nil _)
        | inr e ↦ rw e refl
      ]

  unfoldable pub contents : List (PathTrieMatch T) → List T
  contents = map (λ (m : PathTrieMatch T). m.content)

  pub contents-stamp : (params : Params) (hs : List T) → contents (stamp params hs) ≡ hs
  unfolding contents
  contents-stamp params [] = refl
  contents-stamp params (h ∷ hs) = ap (◌∷◌ h) (contents-stamp params hs)

  hits-append_five :
      (ss : List String) (a b c d e : List (List Key × T))
      → hits ss (a ++ (b ++ (c ++ (d ++ e))))
        ≡ hits ss a ++ (hits ss b ++ (hits ss c ++ (hits ss d ++ hits ss e)))
  hits-append_five ss a b c d e =
      hits-append ss a (b ++ (c ++ (d ++ e)))
      ∙ ap (◌++◌ (hits ss a)) (
          hits-append ss b (c ++ (d ++ e))
          ∙ ap (◌++◌ (hits ss b))
              (hits-append ss c (d ++ e) ∙ ap (◌++◌ (hits ss c)) (hits-append ss d e)))

  hits_child_end : (k : Key) (c : Child T) → hits [] (below_key k (entries_child c)) ≡ []
  hits_child_end k c = hits-below_key_end k (entries_child c)

  child_hits : List String → Child T → List T
  child_hits ss c = hits ss (entries_child c)

  pub contents-append :
      (ms ns : List (PathTrieMatch T)) → contents (ms ++ ns) ≡ contents ms ++ contents ns
  unfolding contents
  contents-append ms ns = map-append _ ms ns

  contents-entry :
      (ss : List String) (params : Params) (s : String) (c : Children T)
      → ((t : PathTrie T) → IsTrie t → contents (matches_below ss params t) ≡ hits ss (entries t))
      → AreDistinct c
      → contents (entry_matches (matches_below ss params) (get_child s c))
        ≡ entry_hits ss (get_child s c)
  unfolding get_child IsTrie contents
  contents-entry ss params s vacant h d = refl
  contents-entry ss params s (child k t r) h d = elim (Bool-cases (str_eq k s)) [
    | inl e ↦ rw e (h t d.1)
    | inr e ↦ rw e (contents-entry ss params s r h d.2)
  ]

  contents-child :
      (ss : List String) (params : Params) (c : Child T)
      → ((t : PathTrie T) → IsTrie t → contents (matches_below ss params t) ≡ hits ss (entries t))
      → IsTrieChild c
      → contents (child_matches (matches_below ss params) c) ≡ hits ss (entries_child c)
  unfolding IsTrie entries contents
  contents-child ss params absent h d = refl
  contents-child ss params (present t) h d = h t d

  -- The matches' handlers are those of the entries that cover the segments, in the trie's order.
  pub contents-matches_below :
      (segments : List String) (params : Params) (t : PathTrie T)
      → IsTrie t
      → contents (matches_below segments params t) ≡ hits segments (entries t)
  unfolding matches_below entries IsTrie covers
  contents-matches_below [] params (node content children wild templ name multi networks) d =
      contents-stamp params content
      ∙ sym (
          hits-append_five [] (here [] content) (here (all_left ∷ []) multi)
            (entries_children children) (below_key any_one (entries_child wild))
            (below_key parameter (entries_child templ))
          ∙ ap₂ ◌++◌ (hits-here [] [] content) (
              ap₂ ◌++◌ (hits-here (all_left ∷ []) [] multi) (
                ap₂ ◌++◌ (hits_children_end children)
                  (ap₂ ◌++◌ (hits_child_end any_one wild) (hits_child_end parameter templ))))
          ∙ append-nil content)
  contents-matches_below (s ∷ ss) params (node content children wild templ name multi networks) d =
      let ih = λ (ps : Params). contents-matches_below ss ps in
      contents-append (stamp params multi) _
      ∙ ap₂ ◌++◌ (contents-stamp params multi) (
          contents-append (entry_matches (matches_below ss params) (get_child s children)) _
          ∙ ap₂ ◌++◌ (contents-entry ss params s children (ih params) d.0) (
              contents-append (child_matches (matches_below ss params) wild) _
              ∙ ap₂ ◌++◌ (contents-child ss params wild (ih params) d.1) (
                  contents-child ss (bind_param name s params) templ (ih (bind_param name s params))
                    d.2)))
      ∙ sym (
          hits-append_five (s ∷ ss) (here [] content) (here (all_left ∷ []) multi)
            (entries_children children) (below_key any_one (entries_child wild))
            (below_key parameter (entries_child templ))
          ∙ ap₂ ◌++◌ (hits-here [] (s ∷ ss) content) (
              ap₂ ◌++◌ (hits-here (all_left ∷ []) (s ∷ ss) multi) (
                ap₂ ◌++◌ (hits_children s ss children d.0) (
                  ap₂ ◌++◌ (hits-any_one s ss (entries_child wild))
                    (hits-parameter s ss (entries_child templ))))))

  -- A search appends the handlers of the entries whose pattern covers the segments, in the trie's
  -- order, in a trie whose maps have distinct keys.
  pub find_matches_internal-contents :
      (segments : List String) (t : PathTrie T) (results : List (PathTrieMatch T)) (params : Params)
      → IsTrie t
      → contents (find_matches_internal segments t (results, params)).0
        ≡ contents results ++ hits segments (entries t)
  find_matches_internal-contents segments t results params d =
      ap (λ (found : Found T). contents found.0)
        (find_matches_internal-eq segments t results params)
      ∙ contents-append results (matches_below segments params t)
      ∙ ap (◌++◌ (contents results)) (contents-matches_below segments params t d)
