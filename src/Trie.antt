-- ===== src/Trie.antt =====
-- src/routing/path_registry.rs: `PathTrie` and the operations that change it. The index into the
-- segments is the list of the segments from it on. A `HashMap` of tries is a list of entries; a
-- boxed optional child is a `Child`, since a trie holds itself.
mod Tests
pub mod Removal
pub mod Search
pub mod Entries
pub mod WellFormed
pub mod Insert
pub mod Lookup
pub mod Contents
pub mod Routing
pub mod Remove
pub mod RemoveValues
pub mod RemoveHandler
pub mod Unchanged
pub mod Picking
pub mod Selection
use rust_node.Base.{
  ℕ, ◌+◌, ltb, String, str_eq, Bool, true, false, ◌&&◌, not, List, [], ◌∷◌, ◌++◌, Option, none,
  some, length, filter, if◌then◌else◌,
}
use rust_node.Text.{inner}
use rust_node.Topic.Segment.{is_template_param}
use rust_node.Topic.{TopicPath, get_segments}

mutual
  pub data PathTrie {ℓ} (T : Type ℓ) : Type ℓ where
    -- content, children, wildcard_child, template_child, template_param_name, multi_wildcard, networks
    node :
        List T → Children T → Child T → Child T → Option String → List T → Children T → PathTrie T

  pub data Children {ℓ} (T : Type ℓ) : Type ℓ where
    vacant : Children T
    child : String → PathTrie T → Children T → Children T

  pub data Child {ℓ} (T : Type ℓ) : Type ℓ where
    absent : Child T
    present : PathTrie T → Child T

-- `extract_param_name`
unfoldable pub extract_param_name : String → String
unfolding inner
extract_param_name segment = inner segment

module _ {ℓ} {T : Type ℓ} where
  abbrev pub new_trie : PathTrie T
  new_trie = node [] vacant absent absent none [] vacant

  -- `map.get(key)`
  unfoldable pub get_child : String → Children T → Option (PathTrie T)
  get_child key vacant = none
  get_child key (child k t r) = if str_eq k key then some t else get_child key r

  -- `f` on `map.get_mut(key)`, if it is there.
  unfoldable pub modify_child : String → (PathTrie T → PathTrie T) → Children T → Children T
  modify_child key f vacant = vacant
  modify_child key f (child k t r) =
      if str_eq k key then child k (f t) r else child k t (modify_child key f r)

  -- `f` on `map.entry(key).or_insert_with(PathTrie::new)`
  unfoldable pub upsert_child : String → (PathTrie T → PathTrie T) → Children T → Children T
  upsert_child key f vacant = child key (f new_trie) vacant
  upsert_child key f (child k t r) =
      if str_eq k key then child k (f t) r else child k t (upsert_child key f r)

  -- The child itself, or a new trie where there is none.
  abbrev pub child_or_new : Child T → PathTrie T
  child_or_new absent = new_trie
  child_or_new (present t) = t

  abbrev pub map_child : (PathTrie T → PathTrie T) → Child T → Child T
  map_child f absent = absent
  map_child f (present t) = present (f t)

  -- The parameter's name is stored when the template child is created, and kept from then on.
  abbrev pub param_name : Child T → Option String → String → Option String
  param_name absent name segment = some (extract_param_name segment)
  param_name (present t) name segment = name

  -- One step of `set_values_internal`, with what it does below the segment.
  unfoldable pub set_step : String → List T → (PathTrie T → PathTrie T) → PathTrie T → PathTrie T
  set_step segment handlers below (node content children wild templ name multi networks) =
      if str_eq segment ">"
      then node content children wild templ name (multi ++ handlers) networks
      else if str_eq segment "*"
      then node content children (present (below (child_or_new wild))) templ name multi networks
      else if is_template_param segment
      then node content children wild (present (below (child_or_new templ)))
          (param_name templ name segment) multi networks
      else node content (upsert_child segment below children) wild templ name multi networks

  unfoldable pub set_values_internal : List String → List T → PathTrie T → PathTrie T
  set_values_internal [] handlers (node content children wild templ name multi networks) =
      node (content ++ handlers) children wild templ name multi networks
  set_values_internal (segment ∷ rest) handlers t =
      set_step segment handlers (set_values_internal rest handlers) t

  unfoldable pub set_values : TopicPath → List T → PathTrie T → PathTrie T
  set_values topic content_list (node content children wild templ name multi networks) =
      node content children wild templ name multi (
        upsert_child topic.network_id (set_values_internal (get_segments topic) content_list)
          networks)

  unfoldable pub set_value : TopicPath → T → PathTrie T → PathTrie T
  set_value topic content = set_values topic (content ∷ [])

  unfoldable pub add_batch_values : List TopicPath → List T → PathTrie T → PathTrie T
  add_batch_values [] contents t = t
  add_batch_values (topic ∷ topics) contents t =
      add_batch_values topics contents (set_values topic contents t)

  unfoldable pub remove_step : String → (PathTrie T → PathTrie T) → PathTrie T → PathTrie T
  remove_step segment below (node content children wild templ name multi networks) =
      if str_eq segment "*"
      then node content children (map_child below wild) templ name multi networks
      else if is_template_param segment
      then node content children wild (map_child below templ) name multi networks
      else node content (modify_child segment below children) wild templ name multi networks

  unfoldable pub remove_values_internal : List String → PathTrie T → PathTrie T
  remove_values_internal [] (node content children wild templ name multi networks) =
      node [] children wild templ name multi networks
  remove_values_internal (segment ∷ rest) t = remove_step segment (remove_values_internal rest) t

  unfoldable pub remove_values : TopicPath → PathTrie T → PathTrie T
  remove_values topic (node content children wild templ name multi networks) =
      node content children wild templ name multi
        (upsert_child topic.network_id (remove_values_internal (get_segments topic)) networks)
