-- ===== src/Base/Perms.antt =====
-- Appending the same entries on one side keeps a permutation of the form "the old ones and new ones".
use mathlib.Core.Path.{◌≡◌, refl, ap, sym, ◌∙◌, subst}
use mathlib.Core.Bool.{Bool, true, false}
use rust_node.Base.Lists.{filter}
use rust_node.Base.Tests.{Bool-cases}
use mathlib.Core.List.{
  List, [], ◌∷◌, ◌++◌, map, filter as lib_filter, Perm, Permᴰ, append-nil, append_assoc,
  perm_append_comm,
}
use mathlib.Core.List.Perm
use mathlib.Core.Logic.{∥∥₁_elim, ∥∥₁_map, ∥∥₁_prop, inl, inr}

module _ {ℓ} {A : Type ℓ} where
  pub perm-append_front :
      (front : List A) {later : List A} (old new : List A)
      → Perm later (old ++ new)
      → Perm (front ++ later) ((front ++ old) ++ new)
  perm-append_front front old new p = rw append_assoc (Perm.append_left front p)

  pub perm-append_back :
      (back : List A) {later : List A} (old new : List A)
      → Perm later (old ++ new)
      → Perm (later ++ back) ((old ++ back) ++ new)
  perm-append_back back old new p = Perm.trans (Perm.append_right back p) (
      rw (append_assoc old new back, append_assoc old back new)
        (Perm.append_left old (perm_append_comm new back)))

is_true : (b : Bool) → Dec (b ≡ true)
is_true true = yes refl
is_true false = no (λ e. cc)

filter-lib {ℓ} :
    {A : Type ℓ} (p : A → Bool) (xs : List A) → filter p xs ≡ lib_filter (λ x. is_true (p x)) xs
unfolding is_true
filter-lib p [] = refl
filter-lib p (x ∷ xs) = elim (Bool-cases (p x)) [
  | inl e ↦ rw (e, is_true) (ap (◌∷◌ x) (filter-lib p xs))
  | inr e ↦ rw (e, is_true) (filter-lib p xs)
]

pub perm-filter {ℓ} :
    {A : Type ℓ} (p : A → Bool) {xs ys : List A} → Perm xs ys → Perm (filter p xs) (filter p ys)
perm-filter p {xs} {ys} h = rw (filter-lib p xs, filter-lib p ys) (Perm.filter _ h)

abbrev pub concat {ℓ} : {A : Type ℓ} → List (List A) → List A
concat [] = []
concat (xs ∷ xss) = xs ++ concat xss

pub concat-append_one {ℓ} :
    {A : Type ℓ} (xss : List (List A)) (xs : List A) → concat (xss ++ xs ∷ []) ≡ concat xss ++ xs
concat-append_one [] xs = append-nil xs
concat-append_one (ys ∷ xss) xs =
    ap (◌++◌ ys) (concat-append_one xss xs) ∙ sym (append_assoc ys (concat xss) xs)

concat-Permᴰ {ℓ} :
    {A : Type ℓ} {xss yss : List (List A)} → Permᴰ xss yss → Perm (concat xss) (concat yss)
concat-Permᴰ Permᴰ.nil = Perm.refl []
concat-Permᴰ (Permᴰ.cons {a} e d) = Perm.append (subst (Perm a) e (Perm.refl a)) (concat-Permᴰ d)
concat-Permᴰ (Permᴰ.swap {a} {b} {a' = c} {l = l} e f) =
    subst (λ x. Perm (a ++ (b ++ concat l)) (c ++ (x ++ concat l))) e
      (subst (λ y. Perm (a ++ (b ++ concat l)) (y ++ (a ++ concat l))) f
        (rw (← append_assoc a b (concat l), ← append_assoc b a (concat l))
          (Perm.append_right (concat l) (perm_append_comm a b))))
concat-Permᴰ (Permᴰ.trans d e) = Perm.trans (concat-Permᴰ d) (concat-Permᴰ e)

pub perm-concat {ℓ} :
    {A : Type ℓ} {xss yss : List (List A)} → Perm xss yss → Perm (concat xss) (concat yss)
perm-concat p = ∥∥₁_elim p ∥∥₁_prop concat-Permᴰ

module _ {ℓ κ} {A : Type ℓ} {B : Type κ} (f : A → B) where
  map-Permᴰ : {xs ys : List A} → Permᴰ xs ys → Permᴰ (map f xs) (map f ys)
  map-Permᴰ Permᴰ.nil = Permᴰ.nil
  map-Permᴰ (Permᴰ.cons e d) = Permᴰ.cons (ap f e) (map-Permᴰ d)
  map-Permᴰ (Permᴰ.swap e e') = Permᴰ.swap (ap f e) (ap f e')
  map-Permᴰ (Permᴰ.trans d e) = Permᴰ.trans (map-Permᴰ d) (map-Permᴰ e)

  pub perm-map : {xs ys : List A} → Perm xs ys → Perm (map f xs) (map f ys)
  perm-map p = ∥∥₁_map p map-Permᴰ
