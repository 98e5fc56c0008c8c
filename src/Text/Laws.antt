-- ===== src/Text/Laws.antt =====
-- Splitting and joining are inverse; a text in braces is its braces around its inner text.
use Prim.Native.String.{[], ◌∷◌}
use text.Mathlib.TextLemmas.{nil-append, cons-append}
use rust_node.Base.{
  ℕ, ◌==◌, Char, code, String, ◌≡◌, refl, ap, ap₂, ◌≢◌, ◌||◌, true, false, not, List, [], ◌∷◌,
  filter, All, arith, Char-path, Bool-cases, inl, inr,
}
use rust_node.Text.{
  ◌⧺◌, is_empty, contains_char, starts_with_char, ends_with_char, drop_last, inner, push_front,
  split, join, split_nonempty,
}

-- A piece of a path: not empty and free of the separator.
pub record IsPiece (d : ℕ) (p : String) : Type 0 where
  pub filled : is_empty p ≡ false
  pub whole : contains_char d p ≡ false

pub split_whole : (d : ℕ) (p : String) → contains_char d p ≡ false → split d p ≡ p ∷ []
unfolding split contains_char
split_whole d [] h = refl
split_whole d (c ∷ p) h = ground (arith, split_whole d p)

pub split_at :
    (c : Char) (p s : String)
    → contains_char (code c) p ≡ false
    → split (code c) (p ⧺ (c ∷ s)) ≡ p ∷ split (code c) s
unfolding split contains_char
split_at c [] s h = rw nil-append (ground arith)
split_at c (e ∷ p) s h = rw cons-append (ground (arith, split_at c p s))

-- Joined pieces that hold no separator are found again, in order.
pub split-join :
    (c : Char) (p : String) (ps : List String)
    → All (λ q. contains_char (code c) q ≡ false) (p ∷ ps)
    → split (code c) (join (c ∷ []) (p ∷ ps)) ≡ p ∷ ps
unfolding join
split-join c p [] h = split_whole (code c) p h.0
split-join c p (q ∷ ps) h =
    rw (cons-append, nil-append, split_at c p (join (c ∷ []) (q ∷ ps)) h.0)
      (ap (◌∷◌ p) (split-join c q ps h.1))

filter_filled :
    (d : ℕ) (ps : List String) → All (IsPiece d) ps → filter (λ p. not (is_empty p)) ps ≡ ps
filter_filled d [] h = refl
filter_filled d (p ∷ ps) h = ground (arith, h.0.filled, filter_filled d ps h.1)

All-whole :
    (d : ℕ) (ps : List String) → All (IsPiece d) ps → All (λ q. contains_char d q ≡ false) ps
All-whole d [] h = tt
All-whole d (p ∷ ps) h = (h.0.whole, All-whole d ps h.1)

pub split_nonempty-join :
    (c : Char) (p : String) (ps : List String)
    → All (IsPiece (code c)) (p ∷ ps)
    → split_nonempty (code c) (join (c ∷ []) (p ∷ ps)) ≡ p ∷ ps
unfolding split_nonempty
split_nonempty-join c p ps h =
    rw (split-join c p ps (All-whole (code c) (p ∷ ps) h)) (filter_filled (code c) (p ∷ ps) h)

push_front_whole :
    (d : ℕ) (c : Char) (ps : List String)
    → (code c == d) ≡ false
    → All (λ q. contains_char d q ≡ false) ps
    → All (λ q. contains_char d q ≡ false) (push_front c ps)
unfolding contains_char
push_front_whole d c [] e h = ground arith
push_front_whole d c (p ∷ ps) e h = ground arith

-- No piece holds the separator.
pub split-whole : (d : ℕ) (s : String) → All (λ q. contains_char d q ≡ false) (split d s)
unfolding split contains_char
split-whole d [] = (refl, tt)
split-whole d (c ∷ s) = ground (arith, split-whole d s, push_front_whole d c (split d s))

filter-IsPiece :
    (d : ℕ) (ps : List String)
    → All (λ q. contains_char d q ≡ false) ps
    → All (IsPiece d) (filter (λ p. not (is_empty p)) ps)
filter-IsPiece d [] h = tt
filter-IsPiece d (p ∷ ps) h = elim (Bool-cases (is_empty p)) [
  | inl e ↦ rw e (filter-IsPiece d ps h.1)
  | inr e ↦ rw e (record { filled = e; whole = h.0 }, filter-IsPiece d ps h.1)
]

pub split_nonempty-IsPiece : (d : ℕ) (s : String) → All (IsPiece d) (split_nonempty d s)
unfolding split_nonempty
split_nonempty-IsPiece d s = filter-IsPiece d (split d s) (split-whole d s)

-- Texts in braces.
pub drop_last-concat : (s : String) (c : Char) → drop_last (s ⧺ (c ∷ [])) ≡ s
drop_last-concat [] c = rw nil-append refl
drop_last-concat (e ∷ []) c = rw (cons-append, nil-append) refl
drop_last-concat (e ∷ f ∷ s) c =
    rw (cons-append, cons-append) (ap (◌∷◌ e) (rw cons-append at (drop_last-concat (f ∷ s) c)))

pub inner_lem : (b c : Char) (s : String) → inner ((b ∷ []) ⧺ s ⧺ (c ∷ [])) ≡ s
unfolding inner
inner_lem b c s = rw (cons-append, nil-append) (drop_last-concat s c)

pub ends_with_char-concat :
    (b : Char) (s : String) (c : Char) → ends_with_char (code c) (b ∷ (s ⧺ (c ∷ []))) ≡ true
unfolding ends_with_char
ends_with_char-concat b [] c = rw nil-append (ground arith)
ends_with_char-concat b (e ∷ s) c = rw cons-append (ends_with_char-concat e s c)

append-drop_last :
    (c d : Char) (s : String)
    → ends_with_char (code d) (c ∷ s) ≡ true
    → drop_last (c ∷ s) ⧺ (d ∷ []) ≡ c ∷ s
unfolding ends_with_char
append-drop_last c d [] h = rw nil-append (ground (arith, Char-path c d))
append-drop_last c d (e ∷ s) h = rw cons-append (ap (◌∷◌ c) (append-drop_last e d s h))

-- A text that begins and ends with two different characters is those round its inner text.
pub inner_braced :
    (b d : Char) (s : String)
    → code b ≢ code d
    → starts_with_char (code b) s ≡ true
    → ends_with_char (code d) s ≡ true
    → (b ∷ []) ⧺ inner s ⧺ (d ∷ []) ≡ s
unfolding inner starts_with_char ends_with_char
inner_braced b d [] n h k = cc
inner_braced b d (c ∷ []) n h k = ground arith
inner_braced b d (c ∷ e ∷ s) n h k =
    rw (cons-append, nil-append) (ap₂ ◌∷◌ (Char-path b c (ground arith)) (append-drop_last e d s k))

-- A character is in an appended or joined text when it is in a part of it.
pub contains_char-append :
    (d : ℕ) (s t : String) → contains_char d (s ⧺ t) ≡ (contains_char d s || contains_char d t)
unfolding contains_char
contains_char-append d [] t = rw nil-append refl
contains_char-append d (c ∷ s) t = rw cons-append (ground (arith, contains_char-append d s t))

pub contains_char-join :
    (d : ℕ) (c : Char) (ps : List String)
    → (code c == d) ≡ false
    → All (λ p. contains_char d p ≡ false) ps
    → contains_char d (join (c ∷ []) ps) ≡ false
unfolding join contains_char
contains_char-join d c [] e h = refl
contains_char-join d c (p ∷ []) e h = h.0
contains_char-join d c (p ∷ q ∷ ps) e h =
    rw (contains_char-append d p (c ∷ [] ⧺ join (c ∷ []) (q ∷ ps)), h.0)
      (rw (cons-append, nil-append) (ground (arith, contains_char-join d c (q ∷ ps))))
