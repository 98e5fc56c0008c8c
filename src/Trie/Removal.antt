-- ===== src/Trie/Removal.antt =====
-- src/routing/path_registry.rs: `remove_handler`, `is_empty` and `handler_count`.
use rust_node.Base.{
  ℕ, ◌+◌, ltb, String, str_eq, Bool, true, false, ◌&&◌, not, List, [], ◌∷◌, length, filter,
  if◌then◌else◌,
}
use rust_node.Topic.Segment.{is_template_param}
use rust_node.Topic.{TopicPath, get_segments}
use rust_node.Trie.{PathTrie, Children, Child, node, vacant, child, absent, present}

module _ {ℓ} {T : Type ℓ} where
  -- `retain(|h| !predicate(h))`, and whether it made the list shorter.
  unfoldable pub retain : (T → Bool) → List T → List T × Bool
  retain predicate handlers =
      let kept = filter (λ h. not (predicate h)) handlers in
      (kept, ltb (length kept) (length handlers))

  -- `f` on an optional child, `false` where there is none.
  unfoldable pub try_child : (PathTrie T → PathTrie T × Bool) → Child T → Child T × Bool
  try_child f absent = (absent, false)
  try_child f (present t) = let (t', removed) = f t in (present t', removed)

  unfoldable pub try_entry :
      String → (PathTrie T → PathTrie T × Bool) → Children T → Children T × Bool
  try_entry key f vacant = (vacant, false)
  try_entry key f (child k t r) =
      let (t', removed) = f t in
      let (r', removed_later) = try_entry key f r in
      if str_eq k key then (child k t' r, removed) else (child k t r', removed_later)

  unfoldable pub remove_handler_step :
      (T → Bool) → String → (PathTrie T → PathTrie T × Bool) → PathTrie T → PathTrie T × Bool
  remove_handler_step predicate segment below
        (node content children wild templ name multi networks) =
      let (multi', removed_multi) = retain predicate multi in
      let (wild', removed_wild) = try_child below wild in
      let (templ', removed_templ) = try_child below templ in
      let (children', removed_child) = try_entry segment below children in
      if str_eq segment ">"
      then (node content children wild templ name multi' networks, removed_multi)
      else if str_eq segment "*"
      then (node content children wild' templ name multi networks, removed_wild)
      else if is_template_param segment
      then (node content children wild templ' name multi networks, removed_templ)
      else (node content children' wild templ name multi networks, removed_child)

  unfoldable pub remove_handler_internal : (T → Bool) → List String → PathTrie T → PathTrie T × Bool
  remove_handler_internal predicate [] (node content children wild templ name multi networks) =
      let (content', removed) = retain predicate content in
      (node content' children wild templ name multi networks, removed)
  remove_handler_internal predicate (segment ∷ rest) t =
      remove_handler_step predicate segment (remove_handler_internal predicate rest) t

  unfoldable pub remove_handler : TopicPath → (T → Bool) → PathTrie T → PathTrie T × Bool
  remove_handler topic predicate (node content children wild templ name multi networks) =
      let (networks', removed) =
        try_entry topic.network_id (remove_handler_internal predicate (get_segments topic))
          networks in
      (node content children wild templ name multi networks', removed)

abbrev pub has_no_children {ℓ} : {T : Type ℓ} → Children T → Bool
has_no_children vacant = true
has_no_children (child k t r) = false

abbrev pub is_absent {ℓ} : {T : Type ℓ} → Child T → Bool
is_absent absent = true
is_absent (present t) = false

abbrev pub is_nil {ℓ} : {A : Type ℓ} → List A → Bool
is_nil [] = true
is_nil (x ∷ xs) = false

unfoldable pub is_empty {ℓ} : {T : Type ℓ} → PathTrie T → Bool
is_empty (node content children wild templ name multi networks) =
    is_nil content
    && (is_nil multi
        && (has_no_children children
            && (is_absent wild && (is_absent templ && has_no_children networks))))

unfoldable mutual
  pub handler_count {ℓ} : {T : Type ℓ} → PathTrie T → ℕ
  handler_count (node content children wild templ name multi networks) =
      length content
      + length multi
      + count_children children
      + count_child wild
      + count_child templ
      + count_children networks

  pub count_children {ℓ} : {T : Type ℓ} → Children T → ℕ
  count_children vacant = 0
  count_children (child k t r) = handler_count t + count_children r

  pub count_child {ℓ} : {T : Type ℓ} → Child T → ℕ
  count_child absent = 0
  count_child (present t) = handler_count t
