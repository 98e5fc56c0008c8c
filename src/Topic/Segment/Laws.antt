-- ===== src/Topic/Segment/Laws.antt =====
-- Reading and printing a segment.
use rust_node.Base.{String, eq_iff, ◌≡◌, refl, ap, ◌↔◌, ◌≢◌, true, false, arith}
use text.Mathlib.TextLemmas.{nil-append, cons-append}
use rust_node.Text.{starts_with_char, inner, ◌⧺◌}
use rust_node.Text.Laws.{inner_braced, inner_lem, ends_with_char-concat}
use rust_node.Topic.Segment.{
  PathSegment, literal, template, single_wildcard, multi_wildcard, from_str, to_string, segment_eq,
  is_template_param,
}

-- A text that counts as a template parameter is its inner text in braces.
pub braced : (s : String) → is_template_param s ≡ true → "{" ⧺ inner s ⧺ "}" ≡ s
unfolding is_template_param
braced s h = inner_braced _ _ s (omega arith) (ground arith) (ground arith)

-- Printing the segment that a text is read as gives the text back, whatever the text.
pub to_string-from_str : (s : String) → to_string (from_str s) ≡ s
unfolding from_str to_string
to_string-from_str s = ground (arith, eq_iff s "*", eq_iff s ">", braced s)

-- A segment that `from_str` can give: a literal is none of the special forms.
abbrev pub IsCanonical : PathSegment → Type 0
IsCanonical (literal s) = (s ≢ "*") × (s ≢ ">") × (is_template_param s ≡ false)
IsCanonical _ = Unit

pub from_str-IsCanonical : (s : String) → IsCanonical (from_str s)
unfolding from_str
from_str-IsCanonical s = ground (arith, eq_iff s "*", eq_iff s ">")

pub is_template_param_braced : (name : String) → is_template_param ("{" ⧺ name ⧺ "}") ≡ true
unfolding is_template_param starts_with_char
is_template_param_braced name = rw (cons-append, nil-append) (ends_with_char-concat "{" name "}")

pub inner_braced_name : (name : String) → inner ("{" ⧺ name ⧺ "}") ≡ name
inner_braced_name name = inner_lem "{" "}" name

braced_ne : (name s : String) → is_template_param s ≡ false → "{" ⧺ name ⧺ "}" ≢ s
braced_ne name s h e = cc (ap is_template_param e, is_template_param_braced name)

wildcard_plain : (is_template_param "*" ≡ false) × (is_template_param ">" ≡ false)
unfolding is_template_param
wildcard_plain = (refl, refl)

-- Reading a printed segment gives the segment back.
from_str-to_string : (p : PathSegment) → IsCanonical p → from_str (to_string p) ≡ p
unfolding from_str to_string
from_str-to_string (literal s) h = ground (arith, eq_iff s "*", eq_iff s ">")
from_str-to_string (template name) h = ground (
  arith,
  eq_iff ("{" ⧺ name ⧺ "}") "*",
  eq_iff ("{" ⧺ name ⧺ "}") ">",
  braced_ne name "*" wildcard_plain.0,
  braced_ne name ">" wildcard_plain.1,
  is_template_param_braced name,
  inner_braced_name name,
)
from_str-to_string single_wildcard h = refl
from_str-to_string multi_wildcard h = refl

pub segment_eq_iff : (p q : PathSegment) → (segment_eq p q ≡ true) ↔ (p ≡ q)
unfolding segment_eq
segment_eq_iff (literal s) (literal t) = ground (arith, eq_iff s t)
segment_eq_iff (template s) (template t) = ground (arith, eq_iff s t)
segment_eq_iff single_wildcard single_wildcard = (λ _. refl, λ _. refl)
segment_eq_iff multi_wildcard multi_wildcard = (λ _. refl, λ _. refl)
segment_eq_iff _ _ = ground arith
