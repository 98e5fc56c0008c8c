-- ===== src/Registry/Subscriptions.antt =====
-- src/services/service_registry.rs: event subscriptions. An operation gives the registry as it is
-- afterwards with its outcome, since an error leaves what was done before it.
pub mod Laws
use rust_node.Base.{
  ℕ, String, str_eq, Bool, true, false, not, List, [], ◌∷◌, ◌++◌, map, filter, Option, none, some,
  Result, ok, err, if◌then◌else◌,
}
use rust_node.Base.Assoc.{lookup, insert, remove}
use rust_node.Topic
use rust_node.Topic.{TopicPath, TopicError, DefaultHasher}
use rust_node.Trie.Search.{PathTrieMatch, find_matches}
use rust_node.Trie.Removal.{remove_handler, is_nil}
use rust_node.Trie.{PathTrie, set_value}
use rust_node.Registry.{Vocabulary, ServiceRegistry, with_new, flatten}

pub data RegistryError : Type 0 where
  -- The id is not mapped to a topic.
  unknown_id : String → RegistryError
  -- The topic has no subscriptions, or none under the path itself.
  no_subscriptions not_found : String → RegistryError
  -- `unwrap` of the service's path panics.
  bad_service_path : TopicError → RegistryError

-- The predicate `|_| true`.
abbrev pub always {ℓ} : {A : Type ℓ} → A → Bool
always x = true

module _ {ℓ} {A : Type ℓ} where
  -- The two branches on the matches: a new list, or the first match's list with the new entry, in
  -- place of the topic's own lists.
  unfoldable pub store_entry :
      TopicPath → A → PathTrie (List A) → List (PathTrieMatch (List A)) → PathTrie (List A)
  store_entry topic x t [] = set_value topic (x ∷ []) t
  store_entry topic x t (m ∷ ms) =
      set_value topic (m.content ++ x ∷ []) (remove_handler topic always t).0

  unfoldable pub add_entry : TopicPath → A → PathTrie (List A) → PathTrie (List A)
  add_entry topic x t = store_entry topic x t (find_matches topic t)

  -- Replace the list of the topic, and say whether there was one. An empty list is not stored.
  unfoldable pub replace_entries : TopicPath → List A → PathTrie (List A) → PathTrie (List A) × Bool
  replace_entries topic xs t =
      let (t', removed) = remove_handler topic always t in
      (if is_nil xs then t' else set_value topic xs t', removed)

module _ {v : Vocabulary} where
  unfoldable pub register_remote_event_subscription :
      String → TopicPath → v.EventCallback → ServiceRegistry v → ServiceRegistry v
  register_remote_event_subscription id topic callback r = record r {
    remote_event_subscriptions = add_entry topic (id, callback) r.remote_event_subscriptions;
    subscription_id_to_topic_path = insert id topic r.subscription_id_to_topic_path;
  }

  unfoldable pub get_remote_event_subscribers :
      TopicPath → ServiceRegistry v → List (String × v.EventCallback)
  get_remote_event_subscribers topic r = flatten (find_matches topic r.remote_event_subscriptions)

  unfoldable pub get_local_event_subscribers :
      TopicPath → ServiceRegistry v → List (String × v.EventCallback)
  get_local_event_subscribers topic r =
      map (λ s. (s.0, s.1)) (flatten (find_matches topic r.local_event_subscriptions))

  -- What `unsubscribe_remote` does where the topic of the id is known.
  unfoldable pub unsubscribe_remote_from :
      String
      → TopicPath
      → List (PathTrieMatch (List (String × v.EventCallback)))
      → ServiceRegistry v
      → ServiceRegistry v × Result (Unit {0}) RegistryError
  unsubscribe_remote_from id topic [] r = (r, err (no_subscriptions id))
  unsubscribe_remote_from id topic (m ∷ ms) r =
      let (t, removed) =
        replace_entries topic (filter (λ s. not (str_eq s.0 id)) m.content)
          r.remote_event_subscriptions in
      let r' = record r { remote_event_subscriptions = t } in
      if removed
      then (
        record r' { subscription_id_to_topic_path = remove id r.subscription_id_to_topic_path },
        ok tt,
      )
      else (r', err (not_found id))

  unfoldable pub unsubscribe_remote :
      String → ServiceRegistry v → ServiceRegistry v × Result (Unit {0}) RegistryError
  unsubscribe_remote id r = run (lookup id r.subscription_id_to_topic_path)
    where
      run : Option TopicPath → ServiceRegistry v × Result (Unit {0}) RegistryError
      run none = (r, err (unknown_id id))
      run (some topic) =
          unsubscribe_remote_from id topic (find_matches topic r.remote_event_subscriptions) r
