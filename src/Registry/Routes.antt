-- ===== src/Registry/Routes.antt =====
-- What a request finds in the registry after handlers were registered.
use rust_node.Base.{
  ◌≡◌, ap, subst, true, false, List, [], ◌∷◌, ◌++◌, map, append-nil, Perm, perm-concat,
  if◌then◌else◌,
}
use rust_node.Topic.{TopicPath}
use rust_node.Trie.Search.{PathTrieMatch, find, find_matches}
use rust_node.Trie.Routing.{reaches, IsRoot, find-set_values}
use rust_node.Trie.{PathTrie, set_value, set_values}
use rust_node.Registry.{
  Vocabulary, ServiceRegistry, with_new, get_remote_action_handlers, register_remote_action_handler,
}

pub find-set_value {ℓ} :
    {A : Type ℓ} (topic : TopicPath) (x : A) (t : PathTrie A)
    → topic.is_pattern ≡ false
    → IsRoot t
    → (registered : TopicPath) → reaches registered topic ≡ true
    → Perm (find topic (set_value registered x t)) (find topic t ++ x ∷ [])
unfolding set_value
find-set_value topic x t concrete d registered e =
    subst
      (λ b.
        Perm (find topic (set_values registered (x ∷ []) t))
          (find topic t ++ (if b then x ∷ [] else [])))
      e (find-set_values topic registered (x ∷ []) t concrete d)

pub with_new-eq {ℓ} :
    {A : Type ℓ} (ms : List (PathTrieMatch (List A))) (xs : List A) (rest : List (List A)) (x : A)
    → map (λ m. m.content) ms ≡ xs ∷ rest
    → with_new ms x ≡ xs ++ x ∷ []
with_new-eq [] xs rest x h = cc
with_new-eq (m ∷ ms) xs rest x h = ap (λ ys. ys ++ x ∷ []) (head_eq h)
  where
    head_eq : m.content ∷ map (λ n. n.content) ms ≡ xs ∷ rest → m.content ≡ xs
    head_eq e = cc

-- The list that is found first, or none at all.
abbrev pub first_or_nil {ℓ} : {A : Type ℓ} → List (List A) → List A
first_or_nil [] = []
first_or_nil (xs ∷ xss) = xs

module _ {v : Vocabulary} where
  -- Where a concrete path already finds handlers under one pattern, registering one more under the
  -- path itself makes a request find each of the old handlers twice, and the new one once.
  register_remote_action_handler-twice :
      (topic : TopicPath) (handler : v.ActionHandler) (r : ServiceRegistry v)
      (old : List v.ActionHandler)
      → topic.is_pattern ≡ false
      → IsRoot r.remote_action_handlers
      → reaches topic topic ≡ true
      → find topic r.remote_action_handlers ≡ old ∷ []
      → Perm
          (get_remote_action_handlers topic (register_remote_action_handler topic handler r))
          (old ++ (old ++ handler ∷ []))
  unfolding get_remote_action_handlers register_remote_action_handler find
  register_remote_action_handler-twice topic handler r old concrete d own h =
      let stored = with_new-eq (find_matches topic r.remote_action_handlers) old [] handler h in
      let both =
        find-set_value topic (old ++ handler ∷ []) r.remote_action_handlers concrete d topic own in
      rw stored (rw (h, append-nil) at (perm-concat both))
