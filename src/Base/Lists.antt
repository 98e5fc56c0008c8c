-- ===== src/Base/Lists.antt =====
-- Lists measured and indexed by native numbers, and Boolean scans.
use Prim.Native.Nat.{ℕ, zero, suc, ◌+◌, ◌-◌, ◌<◌}
use mathlib.Core.Path.{◌≡◌, refl, ap}
use mathlib.Core.Bool.{Bool, false, ◌||◌}
use mathlib.Core.List.{List, [], ◌∷◌, ◌++◌, map}
use mathlib.Core.Option.{Option, none, some}
use native.Mathlib.Omega.{arith}
use rust_node.Base.Tests.{if◌then◌else◌, ltb, ◌==◌}

module _ {ℓ} {A : Type ℓ} where
  abbrev pub length : List A → ℕ
  length [] = 0
  length (x ∷ xs) = suc (length xs)

  abbrev pub get_elem? : List A → ℕ → Option A
  get_elem? [] i = none
  get_elem? (x ∷ xs) zero = some x
  get_elem? (x ∷ xs) (suc i) = get_elem? xs i

  abbrev pub take : ℕ → List A → List A
  take zero xs = []
  take (suc n) [] = []
  take (suc n) (x ∷ xs) = x ∷ take n xs

  -- The last element, `Vec::last`.
  abbrev pub last : List A → Option A
  last [] = none
  last (x ∷ []) = some x
  last (x ∷ y ∷ xs) = last (y ∷ xs)

  -- All but the last element, `v[0..v.len() - 1]`.
  abbrev pub init : List A → List A
  init [] = []
  init (x ∷ []) = []
  init (x ∷ y ∷ xs) = x ∷ init (y ∷ xs)

  abbrev pub any : (A → Bool) → List A → Bool
  any p [] = false
  any p (x ∷ xs) = p x || any p xs

  -- `Iterator::filter` by a Boolean test.
  abbrev pub filter : (A → Bool) → List A → List A
  filter p [] = []
  filter p (x ∷ xs) = let rest = filter p xs in if p x then x ∷ rest else rest

  pub length-append : (xs ys : List A) → length (xs ++ ys) ≡ length xs + length ys
  length-append [] ys = omega arith
  length-append (x ∷ xs) ys = omega (arith, length-append xs ys)

  pub filter-append :
      (p : A → Bool) (xs ys : List A) → filter p (xs ++ ys) ≡ filter p xs ++ filter p ys
  filter-append p [] ys = refl
  filter-append p (x ∷ xs) ys = ground (arith, filter-append p xs ys)

  pub any-append : (p : A → Bool) (xs ys : List A) → any p (xs ++ ys) ≡ (any p xs || any p ys)
  any-append p [] ys = refl
  any-append p (x ∷ xs) ys = ground (arith, any-append p xs ys)

  pub length-init : (xs : List A) → length (init xs) ≡ length xs - 1
  length-init [] = refl
  length-init (x ∷ []) = refl
  length-init (x ∷ y ∷ xs) = omega (arith, length-init (y ∷ xs))

  pub init-concat : (xs : List A) (x : A) → init (xs ++ x ∷ []) ≡ xs
  init-concat [] x = refl
  init-concat (y ∷ []) x = refl
  init-concat (y ∷ z ∷ xs) x = ap (◌∷◌ y) (init-concat (z ∷ xs) x)

module _ {ℓ κ} {A : Type ℓ} {B : Type κ} (f : A → B) where
  pub length-map : (xs : List A) → length (map f xs) ≡ length xs
  length-map [] = refl
  length-map (x ∷ xs) = ap suc (length-map xs)

  pub filter-map :
      (p : B → Bool) (xs : List A) → filter p (map f xs) ≡ map f (filter (λ x. p (f x)) xs)
  filter-map p [] = refl
  filter-map p (x ∷ xs) = ground (arith, filter-map p xs)

module _ {ℓ κ} {A : Type ℓ} (P : A → Type κ) where
  abbrev pub All : List A → Type κ
  All [] = Unit
  All (x ∷ xs) = P x × All xs

  pub All-append : (xs ys : List A) → All xs → All ys → All (xs ++ ys)
  All-append [] ys h k = k
  All-append (x ∷ xs) ys (p, h) k = (p, All-append xs ys h k)

module _ {ℓ} {A : Type ℓ} where
  pub get_elem?-concat :
      (xs : List A) (x : A) (i : ℕ)
      → get_elem? (xs ++ x ∷ []) i
        ≡ (if ltb i (length xs) then get_elem? xs i else if i == length xs then some x else none)
  get_elem?-concat [] x zero = ground arith
  get_elem?-concat [] x (suc i) = ground arith
  get_elem?-concat (y ∷ xs) x zero = ground arith
  get_elem?-concat (y ∷ xs) x (suc i) = ground (arith, get_elem?-concat xs x i)

  -- What stands in `init xs` stands before the last place of `xs`.
  pub get_elem?-init :
      (xs : List A) (i : ℕ) (x : A)
      → get_elem? (init xs) i ≡ some x
      → (get_elem? xs i ≡ some x) × (i + 1 < length xs)
  get_elem?-init [] i x h = cc
  get_elem?-init (y ∷ []) i x h = cc
  get_elem?-init (y ∷ z ∷ xs) zero x h = (h, omega arith)
  get_elem?-init (y ∷ z ∷ xs) (suc i) x h =
      let (at_i, inside) = get_elem?-init (z ∷ xs) i x h in (at_i, omega (arith, inside))
