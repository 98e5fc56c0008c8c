-- ===== src/Topic/Pieces.antt =====
-- The segments of a path that `new` accepts, and the action path kept with them.
use rust_node.Base.{
  String, ◌≡◌, refl, sym, subst, false, List, [], ◌∷◌, map, leb, length, ok, All, if◌then◌else◌,
  arith,
}
use rust_node.Text.{split_nonempty}
use rust_node.Text.Laws.{IsPiece, split_nonempty-IsPiece, split_nonempty-join}
use rust_node.Topic.Segment.{PathSegment, from_str, to_string}
use rust_node.Topic.Segment.Laws.{IsCanonical, from_str-IsCanonical}
use rust_node.Topic.Scanning.{scanned}
use rust_node.Topic.Parse.{new-ok, print-read}
use rust_node.Topic.{DefaultHasher, TopicPath, scan_start, new, assemble, action_path_of}

from_str-All : (ss : List String) → All IsCanonical (map from_str ss)
from_str-All [] = tt
from_str-All (s ∷ ss) = (from_str-IsCanonical s, from_str-All ss)

-- The segments were cut at slashes, and the action path is printed from them.
pub record IsCut (tp : TopicPath) : Type 0 where
  pub pieces : All (IsPiece b'/') (map to_string tp.segments)
  pub canonical : All IsCanonical tp.segments
  pub printed : tp.cached_action_path ≡ action_path_of tp.segments

module _ ⦃hasher : DefaultHasher⦄ where
  assemble-IsCut :
      (network rest : String)
      → IsCut
          (assemble network rest (scanned 0 (map from_str (split_nonempty b'/' rest)) scan_start))
  unfolding assemble
  assemble-IsCut network rest = record {
    pieces =
        subst (All (IsPiece b'/')) (sym (print-read (split_nonempty b'/' rest)))
          (split_nonempty-IsPiece b'/' rest);
    canonical = from_str-All (split_nonempty b'/' rest);
    printed = refl;
  }

  pub new-IsCut :
      (path default_network : String) (tp : TopicPath) → new path default_network ≡ ok tp → IsCut tp
  new-IsCut path default_network tp h =
      let (nr, cut, holds) = new-ok path default_network tp h in
      subst IsCut (sym holds.2) (assemble-IsCut nr.0 nr.1)

-- Cutting a printed action path gives the segments' texts, and nothing for a service alone.
pub split_nonempty-action_path_of :
    (ps : List PathSegment)
    → All (IsPiece b'/') (map to_string ps)
    → split_nonempty b'/' (action_path_of ps) ≡ (if leb (length ps) 1 then [] else map to_string ps)
unfolding action_path_of split_nonempty
split_nonempty-action_path_of [] h = refl
split_nonempty-action_path_of (p ∷ []) h = refl
split_nonempty-action_path_of (p ∷ q ∷ ps) h =
    rw long (split_nonempty-join "/" (to_string p) (map to_string (q ∷ ps)) h)
  where
    long : leb (length (p ∷ q ∷ ps)) 1 ≡ false
    long = ground arith
