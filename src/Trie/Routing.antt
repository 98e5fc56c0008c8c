-- ===== src/Trie/Routing.antt =====
-- What the trie promises a router: a search by a concrete path gives the handlers registered under
-- the patterns that cover it, each as often as it was registered.
use mathlib.Core.List.Perm
use rust_node.Base.{
  String, str_eq, eq_iff, ◌≡◌, refl, ap₂, subst, ◌∙◌, Bool, false, ◌&&◌, List, [], ◌∷◌, ◌++◌, map,
  append-nil, append_assoc, Option, none, some, if◌then◌else◌, Bool-cases, inl, inr, Perm,
  perm-filter,
}
use rust_node.Topic.{TopicPath, get_segments}
use rust_node.Trie.Entries.{Key, covers, pattern_of, here, entries, AreDistinct, IsTrie}
use rust_node.Trie.Insert.{set_values_internal-adds}
use rust_node.Trie.WellFormed.{
  get_child-upsert_child, upsert_child-AreDistinct, set_values_internal-IsTrie, entry_or_new,
}
use rust_node.Trie.Search.{find, find_matches, find_matches_internal, visit_entry, no_params}
use rust_node.Trie.Lookup.{find_matches_internal-eq}
use rust_node.Trie.Contents.{
  hits, hits-append, hits-here, entry_hits, contents, contents-matches_below,
}
use rust_node.Trie.{
  PathTrie, Children, Child, node, vacant, child, get_child, new_trie, set_values_internal,
  set_values,
}

-- A registered path covers a searched one: the same network, and its pattern covers the segments.
unfoldable pub reaches : TopicPath → TopicPath → Bool
reaches registered topic =
    str_eq registered.network_id topic.network_id
    && covers (pattern_of (get_segments registered)) (get_segments topic)

-- The trie of a node: a map of networks with distinct keys, each a trie with distinct keys.
abbrev pub IsRoot {ℓ} : {T : Type ℓ} → PathTrie T → Type ℓ
IsRoot (node content children wild templ name multi networks) = AreDistinct networks

module _ {ℓ} {T : Type ℓ} where
  -- The registrations, one call of `set_values` after the other.
  unfoldable pub register_all : List (TopicPath × List T) → PathTrie T → PathTrie T
  register_all [] t = t
  register_all ((topic, handlers) ∷ later) t = register_all later (set_values topic handlers t)

  -- The handlers whose path covers the searched one, in the order of registration.
  unfoldable pub reaching : TopicPath → List (TopicPath × List T) → List T
  reaching topic [] = []
  reaching topic ((registered, handlers) ∷ later) =
      (if reaches registered topic then handlers else []) ++ reaching topic later

  get_child-IsTrie :
      (key : String) (c : Children T) (t : PathTrie T)
      → AreDistinct c
      → get_child key c ≡ some t
      → IsTrie t
  unfolding get_child IsTrie
  get_child-IsTrie key vacant t d e = cc
  get_child-IsTrie key (child k u r) t d e = elim (Bool-cases (str_eq k key)) [
    | inl h ↦ subst IsTrie (cc (rw h at e)) d.1
    | inr h ↦ get_child-IsTrie key r t d.2 (rw h at e)
  ]

  visit-hits :
      (segments : List String) (o : Option (PathTrie T))
      → ((t : PathTrie T) → o ≡ some t → IsTrie t)
      → map (λ m. m.content) (visit_entry (find_matches_internal segments) o ([], no_params)).0
        ≡ entry_hits segments o
  unfolding contents
  visit-hits segments none d = refl
  visit-hits segments (some t) d =
      rw (find_matches_internal-eq segments t [] no_params)
        (contents-matches_below segments no_params t (d t refl))

  -- A search by a concrete path, from the entries of its network.
  pub find-eq :
      (topic : TopicPath) (content : List T) (children : Children T) (wild templ : Child T)
      (name : Option String) (multi : List T) (networks : Children T)
      → topic.is_pattern ≡ false
      → AreDistinct networks
      → find topic (node content children wild templ name multi networks)
        ≡ entry_hits (get_segments topic) (get_child topic.network_id networks)
  unfolding find find_matches get_segments
  find-eq topic content children wild templ name multi networks concrete d = rw concrete (
      visit-hits (get_segments topic) (get_child topic.network_id networks)
        (λ t e. get_child-IsTrie topic.network_id networks t d e))

  perm-hits :
      (segments : List String) {es fs : List (List Key × T)}
      → Perm es fs
      → Perm (hits segments es) (hits segments fs)
  perm-hits segments p = Perm.map _ (perm-filter _ p)

  entry_hits-new :
      (segments : List String) (o : Option (PathTrie T))
      → hits segments (entries (entry_or_new o)) ≡ entry_hits segments o
  unfolding entries
  entry_hits-new segments none = refl
  entry_hits-new segments (some t) = refl

  entry_hits-set :
      (segments path : List String) (hs : List T) (o : Option (PathTrie T))
      → Perm
          (hits segments (entries (set_values_internal path hs (entry_or_new o))))
          (entry_hits segments o ++ (if covers (pattern_of path) segments then hs else []))
  entry_hits-set segments path hs o =
      subst (Perm _)
        (hits-append segments (entries (entry_or_new o)) (here (pattern_of path) hs)
          ∙ ap₂ ◌++◌ (entry_hits-new segments o) (hits-here (pattern_of path) segments hs))
        (perm-hits segments (set_values_internal-adds path hs (entry_or_new o)))

  -- One registration adds its handlers to what a search gives, where it covers the searched path.
  pub find-set_values :
      (topic registered : TopicPath) (hs : List T) (t : PathTrie T)
      → topic.is_pattern ≡ false
      → IsRoot t
      → Perm
          (find topic (set_values registered hs t))
          (find topic t ++ (if reaches registered topic then hs else []))
  unfolding set_values reaches get_segments
  find-set_values topic registered hs (node content children wild templ name multi networks)
        concrete d =
      rw
        (
          find-eq topic content children wild templ name multi networks concrete d,
          find-eq topic content children wild templ name multi _ concrete (
              upsert_child-AreDistinct registered.network_id
                (set_values_internal (get_segments registered) hs) networks
                (set_values_internal-IsTrie (get_segments registered) hs) d),
          get_child-upsert_child registered.network_id topic.network_id
              (set_values_internal (get_segments registered) hs) networks,
        )
        (elim (Bool-cases (str_eq registered.network_id topic.network_id)) [
          | inl e ↦
              rw (e, (eq_iff registered.network_id topic.network_id).0 e)
                (entry_hits-set (get_segments topic) (get_segments registered) hs
                  (get_child topic.network_id networks))
          | inr e ↦ rw (e, append-nil) (Perm.refl _)
        ])

  set_values-IsRoot :
      (registered : TopicPath) (hs : List T) (t : PathTrie T)
      → IsRoot t
      → IsRoot (set_values registered hs t)
  unfolding set_values
  set_values-IsRoot registered hs (node content children wild templ name multi networks) d =
      upsert_child-AreDistinct registered.network_id
        (set_values_internal (get_segments registered) hs) networks
        (set_values_internal-IsTrie (get_segments registered) hs) d

  find-register_all_from :
      (topic : TopicPath) (registered : List (TopicPath × List T)) (t : PathTrie T)
      → topic.is_pattern ≡ false
      → IsRoot t
      → Perm (find topic (register_all registered t)) (find topic t ++ reaching topic registered)
  unfolding register_all reaching
  find-register_all_from topic [] t concrete d = rw append-nil (Perm.refl _)
  find-register_all_from topic ((r, hs) ∷ later) t concrete d =
      Perm.trans
        (find-register_all_from topic later (set_values r hs t) concrete
          (set_values-IsRoot r hs t d))
        (rw (← append_assoc)
          (Perm.append_right (reaching topic later) (find-set_values topic r hs t concrete d)))

  find-new : (topic : TopicPath) → topic.is_pattern ≡ false → find topic (new_trie {T = T}) ≡ []
  unfolding find find_matches get_child
  find-new topic concrete = rw concrete refl

-- After any registrations in an empty trie, a search by a path with no wildcard gives exactly the
-- handlers of the registered paths that cover it, each as often as registered, in some order.
pub find-register_all {ℓ} :
    {T : Type ℓ} (topic : TopicPath) (registered : List (TopicPath × List T))
    → topic.is_pattern ≡ false
    → Perm (find topic (register_all registered new_trie)) (reaching topic registered)
unfolding AreDistinct
find-register_all {T} topic registered concrete =
    subst
      (λ (hs : List T).
        Perm (find topic (register_all registered new_trie)) (hs ++ reaching topic registered))
      (find-new topic concrete) (find-register_all_from topic registered new_trie concrete new_root)
  where
    new_root : IsRoot (new_trie {T = T})
    new_root = tt
