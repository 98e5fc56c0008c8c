-- ===== src/Topic/Reprint.antt =====
-- The printed form of a path, `as_str`, is read as the same path.
use rust_node.Base.{
  String, ◌≡◌, sym, ap, ◌∙◌, false, List, [], ◌∷◌, ok, arith, Bool-cases, inl, inr, All,
}
use rust_node.Text.{◌⧺◌, is_empty, contains_char, split}
use rust_node.Text.Laws.{split-whole}
use rust_node.Topic.Parse.{new-eq, new-ok, parsed, split_network-format}
use rust_node.Topic.{DefaultHasher, TopicPath, two_parts, split_network, new, assemble}

-- A network name that prints unambiguously.
pub record IsNetwork (network : String) : Type 0 where
  pub filled : is_empty network ≡ false
  pub plain : contains_char b':' network ≡ false

two_parts-ok :
    (ps : List String) (nr : String × String)
    → All (λ p. contains_char b':' p ≡ false) ps
    → two_parts ps ≡ ok nr
    → IsNetwork nr.0 × (contains_char b':' nr.1 ≡ false)
unfolding two_parts
two_parts-ok [] nr h e = cc
two_parts-ok (p ∷ []) nr h e = cc
two_parts-ok (p ∷ q ∷ []) nr h e = ground (arith, h.0, h.1.0)
two_parts-ok (p ∷ q ∷ r ∷ ps) nr h e = cc

-- Both parts of an accepted path are free of colons, and the network is not empty.
pub split_network-plain :
    (path default_network : String) (nr : String × String)
    → IsNetwork default_network
    → split_network path default_network ≡ ok nr
    → IsNetwork nr.0 × (contains_char b':' nr.1 ≡ false)
unfolding split_network
split_network-plain path default_network nr n h = elim (Bool-cases (contains_char b':' path)) [
  | inl e ↦ two_parts-ok (split b':' path) nr (split-whole b':' path) (rw e at h)
  | inr e ↦ ground arith
]

module _ ⦃hasher : DefaultHasher⦄ where
  -- Reading what an accepted path prints as gives the same path again, field by field, under any
  -- other default network.
  pub new-path :
      (path default_network other : String) (tp : TopicPath)
      → IsNetwork default_network
      → new path default_network ≡ ok tp
      → new tp.path other ≡ ok tp
  unfolding assemble
  new-path path default_network other tp n h =
      let (nr, cut, holds) = new-ok path default_network tp h in
      let (named, plain) = split_network-plain path default_network nr n cut in
      let read : parsed nr.0 nr.1 ≡ ok tp = sym (rw cut at (new-eq path default_network)) ∙ h in
      ap (λ q. new q other) (ap (λ (t : TopicPath). t.path) holds.2)
      ∙ new-eq (nr.0 ⧺ ":" ⧺ nr.1) other
      ∙ rw (split_network-format nr.0 nr.1 other named.filled named.plain plain) read
