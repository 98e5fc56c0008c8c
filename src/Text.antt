-- ===== src/Text.antt =====
-- The operations of `str` that the routing code uses, over the characters of the text. Separators
-- and braces are ASCII, so cutting at characters and cutting at bytes give the same pieces.
pub mod Laws
use Prim.Native.String
use Prim.Native.String.{[], ◌∷◌}
use rust_node.Base.{
  ℕ, ◌==◌, Char, code, String, Bool, true, false, ◌&&◌, ◌||◌, List, [], ◌∷◌, if◌then◌else◌, filter,
  not,
}

infixr 64 ◌⧺◌
abbrev pub ◌⧺◌ : String → String → String
s ⧺ t = String.◌++◌ s t

-- `s.is_empty()`
abbrev pub is_empty : String → Bool
is_empty [] = true
is_empty (c ∷ s) = false

-- `s.contains(c)` for a character.
unfoldable pub contains_char : ℕ → String → Bool
contains_char d [] = false
contains_char d (c ∷ s) = code c == d || contains_char d s

-- `s.starts_with(p)`
unfoldable pub starts_with : String → String → Bool
starts_with s [] = true
starts_with [] (d ∷ p) = false
starts_with (c ∷ s) (d ∷ p) = code c == code d && starts_with s p

-- `s.contains(p)`
unfoldable pub contains : String → String → Bool
unfolding starts_with
contains [] p = starts_with "" p
contains (c ∷ s) p = starts_with (c ∷ s) p || contains s p

-- `s.starts_with(c)` and `s.ends_with(c)` for a character.
unfoldable pub starts_with_char : ℕ → String → Bool
starts_with_char d [] = false
starts_with_char d (c ∷ s) = code c == d

unfoldable pub ends_with_char : ℕ → String → Bool
ends_with_char d [] = false
ends_with_char d (c ∷ []) = code c == d
ends_with_char d (c ∷ e ∷ s) = ends_with_char d (e ∷ s)

abbrev pub drop_last : String → String
drop_last [] = []
drop_last (c ∷ []) = []
drop_last (c ∷ e ∷ s) = c ∷ drop_last (e ∷ s)

-- `&s[1..s.len() - 1]`, for a text of two characters or more.
unfoldable pub inner : String → String
inner [] = []
inner (c ∷ s) = drop_last s

-- `s.split(c)`: never the empty list.
abbrev pub push_front : Char → List String → List String
push_front c [] = (c ∷ []) ∷ []
push_front c (p ∷ ps) = (c ∷ p) ∷ ps

unfoldable pub split : ℕ → String → List String
split d [] = "" ∷ []
split d (c ∷ s) = let rest = split d s in if code c == d then "" ∷ rest else push_front c rest

-- `parts.join("/")`, for a separator text.
unfoldable pub join : String → List String → String
join d [] = ""
join d (p ∷ []) = p
join d (p ∷ q ∷ ps) = p ⧺ d ⧺ join d (q ∷ ps)

-- `s.split(c).filter(|p| !p.is_empty())`
unfoldable pub split_nonempty : ℕ → String → List String
unfolding split
split_nonempty d s = filter (λ p. not (is_empty p)) (split d s)
