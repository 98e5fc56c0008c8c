-- ===== src/Topic/Segment.antt =====
-- src/routing/mod.rs: `PathType` is not used by the code; `PathSegment` and its methods.
pub mod Laws
use rust_node.Base.{ℕ, String, str_eq, Bool, true, false, ◌&&◌, List, [], ◌∷◌, if◌then◌else◌}
use rust_node.Text.{◌⧺◌, starts_with_char, ends_with_char, inner}

-- A segment of a path. A template holds its parameter's name, without the braces.
pub data PathSegment : Type 0 where
  literal : String → PathSegment
  template : String → PathSegment
  single_wildcard : PathSegment
  multi_wildcard : PathSegment

-- `s.starts_with('{') && s.ends_with('}')`
unfoldable pub is_template_param : String → Bool
unfolding starts_with_char ends_with_char
is_template_param s = starts_with_char b'{' s && ends_with_char b'}' s

unfoldable pub from_str : String → PathSegment
unfolding is_template_param
from_str s =
    if str_eq s "*"
    then single_wildcard
    else if str_eq s ">"
    then multi_wildcard
    else if is_template_param s
    then template (inner s)
    else literal s

unfoldable pub is_wildcard : PathSegment → Bool
is_wildcard single_wildcard = true
is_wildcard multi_wildcard = true
is_wildcard _ = false

unfoldable pub is_multi_wildcard : PathSegment → Bool
is_multi_wildcard multi_wildcard = true
is_multi_wildcard _ = false

unfoldable pub is_template : PathSegment → Bool
is_template (template name) = true
is_template _ = false

unfoldable pub to_string : PathSegment → String
to_string (literal s) = s
to_string (template name) = "{" ⧺ name ⧺ "}"
to_string single_wildcard = "*"
to_string multi_wildcard = ">"

-- Derived equality of segments.
unfoldable pub segment_eq : PathSegment → PathSegment → Bool
segment_eq (literal s) (literal t) = str_eq s t
segment_eq (template s) (template t) = str_eq s t
segment_eq single_wildcard single_wildcard = true
segment_eq multi_wildcard multi_wildcard = true
segment_eq _ _ = false

-- What a segment feeds to a hasher, write by write: a type code, then its text.
pub data HashWrite : Type 0 where
  write_str : String → HashWrite
  write_i32 : ℕ → HashWrite
  write_u64 : ℕ → HashWrite

unfoldable pub hash_writes : PathSegment → List HashWrite
hash_writes (literal s) = write_i32 0 ∷ write_str s ∷ []
hash_writes (template s) = write_i32 3 ∷ write_str s ∷ []
hash_writes single_wildcard = write_i32 1 ∷ []
hash_writes multi_wildcard = write_i32 2 ∷ []
