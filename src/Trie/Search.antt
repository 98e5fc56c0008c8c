-- ===== src/Trie/Search.antt =====
-- src/routing/path_registry.rs: the searches. `results` and `current_params` are the state that
-- `find_matches_internal` passes by reference; the order of `children` is that of the list.
use rust_node.Base.{String, str_eq, List, [], ◌∷◌, ◌++◌, map, Option, none, some, if◌then◌else◌}
use rust_node.Base.Assoc.{lookup, insert, remove}
use rust_node.Topic.{TopicPath, get_segments}
use rust_node.Trie.{PathTrie, Children, Child, node, vacant, child, absent, present, get_child}

pub record PathTrieMatch {ℓ} (T : Type ℓ) : Type ℓ where
  pub content : T
  pub params : List (String × String)

abbrev pub Params : Type 0
Params = List (String × String)

-- `HashMap::new()`
abbrev pub no_params : Params
no_params = []

abbrev pub Found {ℓ} : Type ℓ → Type ℓ
Found T = List (PathTrieMatch T) × Params

-- Put back what the parameter was before: its old value, or nothing.
abbrev pub restore : String → Option String → Params → Params
restore name none params = remove name params
restore name (some value) params = insert name value params

module _ {ℓ} {T : Type ℓ} where
  -- Each handler with the same parameters.
  abbrev pub stamp : Params → List T → List (PathTrieMatch T)
  stamp params = map (λ h. record { content = h; params = params })

  -- The loop that pushes handlers with a copy of the current parameters.
  abbrev pub push_all : List T → Found T → Found T
  push_all hs (results, params) = (results ++ stamp params hs, params)

  abbrev pub visit_entry :
      (PathTrie T → Found T → Found T) → Option (PathTrie T) → Found T → Found T
  visit_entry run none st = st
  visit_entry run (some t) st = run t st

  abbrev pub visit_child : (PathTrie T → Found T → Found T) → Child T → Found T → Found T
  visit_child run absent st = st
  visit_child run (present t) st = run t st

  unfoldable pub visit_template :
      (PathTrie T → Found T → Found T) → String → Child T → Option String → Found T → Found T
  visit_template run segment absent name st = st
  visit_template run segment (present t) none st = run t st
  visit_template run segment (present t) (some name) (results, params) =
      let old_value = lookup name params in
      let (results', params') = run t (results, insert name segment params) in
      (results', restore name old_value params')

  unfoldable pub find_matches_internal : List String → PathTrie T → Found T → Found T
  find_matches_internal [] (node content children wild templ name multi networks) st =
      push_all content st
  find_matches_internal (segment ∷ rest) (node content children wild templ name multi networks) st =
      let st1 = push_all multi st in
      let st2 = visit_entry (find_matches_internal rest) (get_child segment children) st1 in
      let st3 = visit_child (find_matches_internal rest) wild st2 in
      visit_template (find_matches_internal rest) segment templ name st3

  -- A search by a pattern extracts no parameters.
  abbrev pub push_plain : List T → List (PathTrieMatch T) → List (PathTrieMatch T)
  push_plain hs results = results ++ stamp no_params hs

  abbrev pub collect_entry :
      (PathTrie T → List (PathTrieMatch T) → List (PathTrieMatch T))
      → Option (PathTrie T)
      → List (PathTrieMatch T)
      → List (PathTrieMatch T)
  collect_entry run none results = results
  collect_entry run (some t) results = run t results

  abbrev pub collect_child :
      (PathTrie T → List (PathTrieMatch T) → List (PathTrieMatch T))
      → Child T
      → List (PathTrieMatch T)
      → List (PathTrieMatch T)
  collect_child run absent results = results
  collect_child run (present t) results = run t results

  -- `for (_, child) in &self.children`
  unfoldable pub collect_children :
      (PathTrie T → List (PathTrieMatch T) → List (PathTrieMatch T))
      → Children T
      → List (PathTrieMatch T)
      → List (PathTrieMatch T)
  collect_children run vacant results = results
  collect_children run (child k t r) results = collect_children run r (run t results)

unfoldable mutual
  pub collect_all_handlers {ℓ} :
      {T : Type ℓ} → PathTrie T → List (PathTrieMatch T) → List (PathTrieMatch T)
  collect_all_handlers (node content children wild templ name multi networks) results =
      collect_all_child templ (
        collect_all_child wild
          (collect_all_children children (push_plain multi (push_plain content results))))

  pub collect_all_children {ℓ} :
      {T : Type ℓ} → Children T → List (PathTrieMatch T) → List (PathTrieMatch T)
  collect_all_children vacant results = results
  collect_all_children (child k t r) results =
      collect_all_children r (collect_all_handlers t results)

  pub collect_all_child {ℓ} :
      {T : Type ℓ} → Child T → List (PathTrieMatch T) → List (PathTrieMatch T)
  collect_all_child absent results = results
  collect_all_child (present t) results = collect_all_handlers t results

module _ {ℓ} {T : Type ℓ} where
  unfoldable pub collect_wildcard_matches :
      List String → PathTrie T → List (PathTrieMatch T) → List (PathTrieMatch T)
  collect_wildcard_matches [] (node content children wild templ name multi networks) results =
      push_plain content results
  collect_wildcard_matches (segment ∷ rest) (node content children wild templ name multi networks)
        results =
      let deeper = collect_wildcard_matches rest in
      if str_eq segment "*"
      then collect_child deeper templ
          (collect_child deeper wild (collect_children deeper children results))
      else if str_eq segment ">"
      then collect_all_handlers (node content children wild templ name multi networks) results
      else collect_entry deeper (get_child segment children) results

  unfoldable pub find_wildcard_matches : TopicPath → PathTrie T → List (PathTrieMatch T)
  find_wildcard_matches pattern (node content children wild templ name multi networks) =
      collect_entry (collect_wildcard_matches (get_segments pattern))
        (get_child pattern.network_id networks) []

  unfoldable pub find_matches : TopicPath → PathTrie T → List (PathTrieMatch T)
  find_matches topic (node content children wild templ name multi networks) =
      if topic.is_pattern
      then find_wildcard_matches topic (node content children wild templ name multi networks)
      else (visit_entry (find_matches_internal (get_segments topic))
          (get_child topic.network_id networks) ([], no_params)).0

  unfoldable pub find : TopicPath → PathTrie T → List T
  find topic t = map (λ (m : PathTrieMatch T). m.content) (find_matches topic t)
