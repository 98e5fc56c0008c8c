-- ===== src/Trie/WellFormed.antt =====
-- Lookups in a node's map after a change, and the distinct keys that every change keeps.
use mathlib.Core.Option
use rust_node.Base.{
  String, str_eq, eq_iff, ◌≡◌, refl, List, [], ◌∷◌, Option, none, some, if◌then◌else◌, Bool-cases,
  inl, inr, arith,
}
use rust_node.Topic.Segment.{is_template_param}
use rust_node.Trie.Entries.{IsTrie, AreDistinct, IsTrieChild}
use rust_node.Trie.{
  PathTrie, Children, Child, node, vacant, child, absent, present, get_child, modify_child,
  upsert_child, new_trie, child_or_new, map_child, set_step, set_values_internal, remove_step,
  remove_values_internal,
}

pub new_trie-IsTrie {ℓ} : (T : Type ℓ) → IsTrie (new_trie {T = T})
unfolding IsTrie
new_trie-IsTrie T = (tt, tt, tt)

module _ {ℓ} {T : Type ℓ} where
  abbrev pub entry_or_new : Option (PathTrie T) → PathTrie T
  entry_or_new none = new_trie
  entry_or_new (some t) = t

  pub get_child-upsert_child :
      (key j : String) (f : PathTrie T → PathTrie T) (c : Children T)
      → get_child j (upsert_child key f c)
        ≡ (if str_eq key j then some (f (entry_or_new (get_child key c))) else get_child j c)
  unfolding get_child upsert_child
  get_child-upsert_child key j f vacant = ground arith
  get_child-upsert_child key j f (child k t r) =
      ground (arith, eq_iff k key, eq_iff k j, eq_iff key j, get_child-upsert_child key j f r)

  pub get_child-modify_child :
      (key j : String) (f : PathTrie T → PathTrie T) (c : Children T)
      → get_child j (modify_child key f c)
        ≡ (if str_eq key j then Option.map f (get_child key c) else get_child j c)
  unfolding get_child modify_child
  get_child-modify_child key j f vacant = ground arith
  get_child-modify_child key j f (child k t r) =
      ground (arith, eq_iff k key, eq_iff k j, eq_iff key j, get_child-modify_child key j f r)

  -- A change of one node that keeps the keys distinct.
  abbrev pub Keeps : (PathTrie T → PathTrie T) → Type ℓ
  Keeps f = (t : PathTrie T) → IsTrie t → IsTrie (f t)

  child_or_new-IsTrie : (c : Child T) → IsTrieChild c → IsTrie (child_or_new c)
  unfolding IsTrie
  child_or_new-IsTrie absent d = (tt, tt, tt)
  child_or_new-IsTrie (present t) d = d

  pub upsert_child-AreDistinct :
      (key : String) (f : PathTrie T → PathTrie T) (c : Children T)
      → Keeps f
      → AreDistinct c
      → AreDistinct (upsert_child key f c)
  unfolding IsTrie upsert_child get_child
  upsert_child-AreDistinct key f vacant keep d = (refl, keep new_trie (new_trie-IsTrie T), tt)
  upsert_child-AreDistinct key f (child k t r) keep d = elim (Bool-cases (str_eq k key)) [
    | inl e ↦ rw e (d.0, keep t d.1, d.2)
    | inr e ↦ rw e (
      ground (arith, get_child-upsert_child key k f r, eq_iff k key, eq_iff key k, d.0),
      d.1,
      upsert_child-AreDistinct key f r keep d.2,
    )
  ]

  pub modify_child-AreDistinct :
      (key : String) (f : PathTrie T → PathTrie T) (c : Children T)
      → Keeps f
      → AreDistinct c
      → AreDistinct (modify_child key f c)
  unfolding IsTrie modify_child
  modify_child-AreDistinct key f vacant keep d = d
  modify_child-AreDistinct key f (child k t r) keep d = elim (Bool-cases (str_eq k key)) [
    | inl e ↦ rw e (d.0, keep t d.1, d.2)
    | inr e ↦ rw e (
      ground (arith, get_child-modify_child key k f r, eq_iff k key, eq_iff key k, d.0),
      d.1,
      modify_child-AreDistinct key f r keep d.2,
    )
  ]

  map_child-IsTrieChild :
      (f : PathTrie T → PathTrie T) (c : Child T)
      → Keeps f
      → IsTrieChild c
      → IsTrieChild (map_child f c)
  unfolding IsTrie
  map_child-IsTrieChild f absent keep d = d
  map_child-IsTrieChild f (present t) keep d = keep t d

  set_step-IsTrie :
      (segment : String) (hs : List T) (f : PathTrie T → PathTrie T)
      → Keeps f
      → Keeps (set_step segment hs f)
  unfolding set_step IsTrie
  set_step-IsTrie segment hs f keep (node content children wild templ name multi networks) d =
      elim (Bool-cases (str_eq segment ">")) [
        | inl e ↦ rw e d
        | inr e ↦ elim (Bool-cases (str_eq segment "*")) [
          | inl e' ↦ rw (e, e') (d.0, keep _ (child_or_new-IsTrie wild d.1), d.2)
          | inr e' ↦ elim (Bool-cases (is_template_param segment)) [
            | inl e'' ↦ rw (e, e', e'') (d.0, d.1, keep _ (child_or_new-IsTrie templ d.2))
            | inr e'' ↦
                rw (e, e', e'') (upsert_child-AreDistinct segment f children keep d.0, d.1, d.2)
          ]
        ]
      ]

  pub set_values_internal-IsTrie :
      (segments : List String) (hs : List T) → Keeps (set_values_internal segments hs)
  unfolding set_values_internal IsTrie
  set_values_internal-IsTrie [] hs (node content children wild templ name multi networks) d = d
  set_values_internal-IsTrie (s ∷ ss) hs t d =
      set_step-IsTrie s hs (set_values_internal ss hs) (set_values_internal-IsTrie ss hs) t d

  remove_step-IsTrie :
      (segment : String) (f : PathTrie T → PathTrie T) → Keeps f → Keeps (remove_step segment f)
  unfolding remove_step IsTrie
  remove_step-IsTrie segment f keep (node content children wild templ name multi networks) d =
      elim (Bool-cases (str_eq segment "*")) [
        | inl e ↦ rw e (d.0, map_child-IsTrieChild f wild keep d.1, d.2)
        | inr e ↦ elim (Bool-cases (is_template_param segment)) [
          | inl e' ↦ rw (e, e') (d.0, d.1, map_child-IsTrieChild f templ keep d.2)
          | inr e' ↦ rw (e, e') (modify_child-AreDistinct segment f children keep d.0, d.1, d.2)
        ]
      ]

  pub remove_values_internal-IsTrie :
      (segments : List String) → Keeps (remove_values_internal {T = T} segments)
  unfolding remove_values_internal IsTrie
  remove_values_internal-IsTrie [] (node content children wild templ name multi networks) d = d
  remove_values_internal-IsTrie (s ∷ ss) t d =
      remove_step-IsTrie s (remove_values_internal ss) (remove_values_internal-IsTrie ss) t d
