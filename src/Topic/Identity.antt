-- ===== src/Topic/Identity.antt =====
-- src/routing/mod.rs: `PartialEq` and `Hash` of `TopicPath`. A hash is what the path feeds to a
-- hasher, write by write: equal writes give equal hashes whatever the hasher, and a hash map may
-- miss a key whose writes differ.
pub mod Laws
use rust_node.Base.{ℕ, ◌==◌, str_eq, Bool, true, ◌&&◌, ◌||◌, List, [], ◌∷◌, ◌++◌, map}
use rust_node.Topic.Segment.{PathSegment, segment_eq, HashWrite, write_str, write_u64, hash_writes}
use rust_node.Topic.{TopicPath}

-- The loop over `zip`, which stops with the shorter list.
unfoldable pub zip_eq : List PathSegment → List PathSegment → Bool
zip_eq [] qs = true
zip_eq (p ∷ ps) [] = true
zip_eq (p ∷ ps) (q ∷ qs) = segment_eq p q && zip_eq ps qs

unfoldable pub topic_eq : TopicPath → TopicPath → Bool
topic_eq a b =
    str_eq a.path b.path
    || (str_eq a.network_id b.network_id
        && (a.segment_count == b.segment_count && zip_eq a.segments b.segments))

hash_segments : List PathSegment → List HashWrite
hash_segments [] = []
hash_segments (p ∷ ps) = hash_writes p ++ hash_segments ps

hash_components : List ℕ → List PathSegment → List HashWrite
hash_components [] ps = hash_segments ps
hash_components (h ∷ hs) ps = map write_u64 (h ∷ hs)

unfoldable pub hash : TopicPath → List HashWrite
unfolding hash_components hash_segments
hash tp = write_str tp.network_id ∷ hash_components tp.hash_components tp.segments
