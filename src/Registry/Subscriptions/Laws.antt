-- ===== src/Registry/Subscriptions/Laws.antt =====
-- What a new subscription does to the subscribers of its path.
use rust_node.Base.{
  String, ◌≡◌, refl, true, false, List, [], ◌∷◌, ◌++◌, map, append-nil, Perm, perm-concat,
}
use rust_node.Topic.{TopicPath}
use rust_node.Trie.Search.{PathTrieMatch, find, find_matches}
use rust_node.Trie.Removal.{remove_handler}
use rust_node.Trie.Routing.{reaches, IsRoot}
use rust_node.Trie.Unchanged.{remove_handler_same}
use rust_node.Trie.{PathTrie, set_value}
use rust_node.Registry.{Vocabulary, ServiceRegistry}
use rust_node.Registry.Routes.{find-set_value}
use rust_node.Registry.Subscriptions.{
  always, add_entry, store_entry, register_remote_event_subscription, get_remote_event_subscribers,
}

module _ {ℓ} {A : Type ℓ} where
  store_entry-eq :
      (topic : TopicPath) (x : A) (t : PathTrie (List A)) (ms : List (PathTrieMatch (List A)))
      (old : List A)
      → (remove_handler topic always t).1 ≡ false
      → map (λ m. m.content) ms ≡ old ∷ []
      → store_entry topic x t ms ≡ set_value topic (old ++ x ∷ []) t
  unfolding store_entry
  store_entry-eq topic x t [] old kept h = cc
  store_entry-eq topic x t (m ∷ ms) old kept h =
      let same : m.content ≡ old = cc h in rw (same, remove_handler_same topic always t kept) refl

module _ {v : Vocabulary} where
  -- A new subscription under a concrete path that has no list of its own, where the subscriptions of
  -- one pattern cover the path: each of the pattern's subscribers then gets the events of the path
  -- twice, and the new one gets them once.
  pub register_remote_event_subscription-twice :
      (id : String) (topic : TopicPath) (callback : v.EventCallback) (r : ServiceRegistry v)
      (old : List (String × v.EventCallback))
      → topic.is_pattern ≡ false
      → IsRoot r.remote_event_subscriptions
      → reaches topic topic ≡ true
      → (remove_handler topic always r.remote_event_subscriptions).1 ≡ false
      → find topic r.remote_event_subscriptions ≡ old ∷ []
      → Perm
          (get_remote_event_subscribers topic
            (register_remote_event_subscription id topic callback r))
          (old ++ (old ++ (id, callback) ∷ []))
  unfolding get_remote_event_subscribers register_remote_event_subscription find add_entry
  register_remote_event_subscription-twice id topic callback r old concrete d own kept h =
      let stored =
        store_entry-eq topic (id, callback) r.remote_event_subscriptions
          (find_matches topic r.remote_event_subscriptions) old kept h in
      let both =
        find-set_value topic (old ++ (id, callback) ∷ []) r.remote_event_subscriptions concrete d
          topic own in
      rw stored (rw (h, append-nil) at (perm-concat both))
