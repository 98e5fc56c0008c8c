-- ===== src/Trie/Unchanged.antt =====
-- A `remove_handler` that answers that it removed nothing leaves the trie as it is.
use rust_node.Base.{
  ltb, ◌≤◌, String, str_eq, ◌≡◌, refl, ap, Bool, false, not, List, [], ◌∷◌, filter, length,
  Bool-cases, inl, inr, arith,
}
use rust_node.Topic.Segment.{is_template_param}
use rust_node.Topic.{TopicPath, get_segments}
use rust_node.Trie.Removal.{
  retain, try_child, try_entry, remove_handler_step, remove_handler_internal, remove_handler,
}
use rust_node.Trie.{PathTrie, Children, Child, node, vacant, child, absent, present}

module _ {ℓ} {T : Type ℓ} where
  length-filter : (p : T → Bool) (hs : List T) → length (filter p hs) ≤ length hs
  length-filter p [] = omega arith
  length-filter p (h ∷ hs) = ground (arith, length-filter p hs)

  filter_same :
      (p : T → Bool) (hs : List T)
      → ltb (length (filter p hs)) (length hs) ≡ false
      → filter p hs ≡ hs
  filter_same p [] e = refl
  filter_same p (h ∷ hs) e = elim (Bool-cases (p h)) [
    | inl k ↦ rw k (ap (◌∷◌ h) (filter_same p hs (ground (arith, k))))
    | inr k ↦ absurd (ground (arith, k, length-filter p hs))
  ]

  retain_same : (p : T → Bool) (hs : List T) → (retain p hs).1 ≡ false → (retain p hs).0 ≡ hs
  unfolding retain
  retain_same p hs e = filter_same (λ h. not (p h)) hs e

  -- A change that answers `false` only when it changes nothing.
  abbrev IsHonest : (PathTrie T → PathTrie T × Bool) → Type ℓ
  IsHonest f = (t : PathTrie T) → (f t).1 ≡ false → (f t).0 ≡ t

  try_child_same :
      (f : PathTrie T → PathTrie T × Bool) (c : Child T)
      → IsHonest f
      → (try_child f c).1 ≡ false
      → (try_child f c).0 ≡ c
  unfolding try_child
  try_child_same f absent honest e = refl
  try_child_same f (present t) honest e = ap present (honest t e)

  try_entry_same :
      (key : String) (f : PathTrie T → PathTrie T × Bool) (c : Children T)
      → IsHonest f
      → (try_entry key f c).1 ≡ false
      → (try_entry key f c).0 ≡ c
  unfolding try_entry
  try_entry_same key f vacant honest e = refl
  try_entry_same key f (child k t r) honest e = elim (Bool-cases (str_eq k key)) [
    | inl h ↦ rw h (ap (λ u. child k u r) (honest t (rw h at e)))
    | inr h ↦ rw h (ap (child k t) (try_entry_same key f r honest (rw h at e)))
  ]

  remove_handler_step_same :
      (p : T → Bool) (segment : String) (f : PathTrie T → PathTrie T × Bool)
      → IsHonest f
      → IsHonest (remove_handler_step p segment f)
  unfolding remove_handler_step
  remove_handler_step_same p segment f honest (node content children wild templ name multi networks)
        e =
      elim (Bool-cases (str_eq segment ">")) [
        | inl a ↦ rw a (
            ap (λ hs. node content children wild templ name hs networks)
              (retain_same p multi (rw a at e)))
        | inr a ↦ elim (Bool-cases (str_eq segment "*")) [
          | inl b ↦
              rw (a, b)
                (ap (λ c. node content children c templ name multi networks)
                  (try_child_same f wild honest (rw (a, b) at e)))
          | inr b ↦ elim (Bool-cases (is_template_param segment)) [
            | inl d ↦
                rw (a, b, d)
                  (ap (λ c. node content children wild c name multi networks)
                    (try_child_same f templ honest (rw (a, b, d) at e)))
            | inr d ↦
                rw (a, b, d)
                  (ap (λ c. node content c wild templ name multi networks)
                    (try_entry_same segment f children honest (rw (a, b, d) at e)))
          ]
        ]
      ]

  remove_handler_internal_same :
      (p : T → Bool) (segments : List String) → IsHonest (remove_handler_internal p segments)
  unfolding remove_handler_internal
  remove_handler_internal_same p [] (node content children wild templ name multi networks) e =
      ap (λ hs. node hs children wild templ name multi networks) (retain_same p content e)
  remove_handler_internal_same p (segment ∷ rest) t e =
      remove_handler_step_same p segment (remove_handler_internal p rest)
        (remove_handler_internal_same p rest) t e

  -- Where `remove_handler` answers that it removed nothing, it changes nothing.
  pub remove_handler_same :
      (topic : TopicPath) (p : T → Bool) (t : PathTrie T)
      → (remove_handler topic p t).1 ≡ false
      → (remove_handler topic p t).0 ≡ t
  unfolding remove_handler
  remove_handler_same topic p (node content children wild templ name multi networks) e =
      ap (node content children wild templ name multi) (
        try_entry_same topic.network_id (remove_handler_internal p (get_segments topic)) networks
          (remove_handler_internal_same p (get_segments topic)) e)
