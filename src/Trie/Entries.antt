-- ===== src/Trie/Entries.antt =====
-- What a trie holds, with no structure: each handler under the pattern that leads to it.
use rust_node.Base.{
  String, str_eq, ◌≡◌, Bool, true, false, ◌&&◌, List, [], ◌∷◌, ◌++◌, map, none, if◌then◌else◌,
}
use rust_node.Topic.Segment.{is_template_param}
use rust_node.Trie.{PathTrie, Children, Child, node, vacant, child, absent, present, get_child}

-- A step of a pattern: one text, any one segment by `*` or by a template, or all that is left.
pub data Key : Type 0 where
  exactly : String → Key
  any_one : Key
  parameter : Key
  all_left : Key

unfoldable pub key_eq : Key → Key → Bool
key_eq (exactly s) (exactly t) = str_eq s t
key_eq any_one any_one = true
key_eq parameter parameter = true
key_eq all_left all_left = true
key_eq _ _ = false

unfoldable pub keys_eq : List Key → List Key → Bool
unfolding key_eq
keys_eq [] [] = true
keys_eq (k ∷ ks) (j ∷ js) = key_eq k j && keys_eq ks js
keys_eq _ _ = false

-- The pattern of a registered path. A multi-wildcard ends it.
abbrev pub key_of : String → Key
key_of segment =
    if str_eq segment ">"
    then all_left
    else if str_eq segment "*"
    then any_one
    else if is_template_param segment
    then parameter
    else exactly segment

unfoldable pub pattern_of : List String → List Key
pattern_of [] = []
pattern_of (segment ∷ rest) =
    let later = pattern_of rest in
    if str_eq segment ">" then all_left ∷ [] else key_of segment ∷ later

-- Whether a pattern covers a path's segments.
unfoldable pub covers : List Key → List String → Bool
covers [] [] = true
covers [] (s ∷ ss) = false
covers (k ∷ ks) [] = false
covers (exactly t ∷ ks) (s ∷ ss) = str_eq t s && covers ks ss
covers (any_one ∷ ks) (s ∷ ss) = covers ks ss
covers (parameter ∷ ks) (s ∷ ss) = covers ks ss
covers (all_left ∷ ks) (s ∷ ss) = true

module _ {ℓ} {T : Type ℓ} where
  -- All entries with one more step in front.
  abbrev pub below_key : Key → List (List Key × T) → List (List Key × T)
  below_key k = map (λ e. (k ∷ e.0, e.1))

  abbrev pub here : List Key → List T → List (List Key × T)
  here ks = map (λ h. (ks, h))

unfoldable mutual
  pub entries {ℓ} : {T : Type ℓ} → PathTrie T → List (List Key × T)
  entries (node content children wild templ name multi networks) =
      here [] content
      ++ (here (all_left ∷ []) multi
          ++ (entries_children children
              ++ (below_key any_one (entries_child wild)
                  ++ below_key parameter (entries_child templ))))

  pub entries_children {ℓ} : {T : Type ℓ} → Children T → List (List Key × T)
  entries_children vacant = []
  entries_children (child k t r) = below_key (exactly k) (entries t) ++ entries_children r

  pub entries_child {ℓ} : {T : Type ℓ} → Child T → List (List Key × T)
  entries_child absent = []
  entries_child (present t) = entries t

-- The keys of a hash map are distinct, at every node.
unfoldable mutual
  pub IsTrie {ℓ} : {T : Type ℓ} → PathTrie T → Type ℓ
  IsTrie (node content children wild templ name multi networks) =
      AreDistinct children × IsTrieChild wild × IsTrieChild templ

  pub AreDistinct {ℓ} : {T : Type ℓ} → Children T → Type ℓ
  AreDistinct vacant = Unit
  AreDistinct (child k t r) = (get_child k r ≡ none) × IsTrie t × AreDistinct r

  pub IsTrieChild {ℓ} : {T : Type ℓ} → Child T → Type ℓ
  IsTrieChild absent = Unit
  IsTrieChild (present t) = IsTrie t
