-- ===== src/Base/Assoc/Distinct.antt =====
-- Association lists with distinct keys, as the entries of a `HashMap` have, and their filters.
use rust_node.Base.Tests.{if◌then◌else◌, Bool-cases}
use rust_node.Base.Lists.{filter, any}
use rust_node.Base.Assoc.{lookup, remove, insert, lookup-remove, lookup-insert, remove_absent}
use text.Mathlib.TextPositions.{eq_refl}
use Prim.Native.String.{String}
use text.Mathlib.Text.{◌==◌ as str_eq}
use text.Mathlib.TextEquality.{eq_iff}
use mathlib.Core.Path.{◌≡◌, refl, ap}
use mathlib.Core.Bool.{Bool, false, not}
use mathlib.Core.Logic.{inl, inr}
use mathlib.Core.List.{List, [], ◌∷◌, map}
use mathlib.Core.Option.{Option, none, some}
use native.Mathlib.Omega.{arith}

abbrev has_key : String → List String → Bool
has_key key ks = any (λ k. str_eq k key) ks

module _ {ℓ} {V : Type ℓ} where
  unfoldable pub IsMap : List (String × V) → Type ℓ
  IsMap [] = Unit
  IsMap ((k, value) ∷ rest) = (lookup k rest ≡ none) × IsMap rest

  pub insert-IsMap :
      (key : String) (new : V) (m : List (String × V)) → IsMap m → IsMap (insert key new m)
  unfolding IsMap insert lookup
  insert-IsMap key new [] d = (refl, tt)
  insert-IsMap key new ((k, value) ∷ rest) d = elim (Bool-cases (str_eq k key)) [
    | inl e ↦ rw e (ground (arith, eq_iff k key, d.0), d.1)
    | inr e ↦ rw e (
      ground (arith, lookup-insert key k new rest, eq_iff key k, eq_iff k key, d.0),
      insert-IsMap key new rest d.1,
    )
  ]

  pub remove-IsMap : (key : String) (m : List (String × V)) → IsMap m → IsMap (remove key m)
  unfolding IsMap remove lookup
  remove-IsMap key [] d = tt
  remove-IsMap key ((k, value) ∷ rest) d = elim (Bool-cases (str_eq k key)) [
    | inl e ↦ rw e (remove-IsMap key rest d.1)
    | inr e ↦ rw e (ground (arith, lookup-remove key k rest, d.0), remove-IsMap key rest d.1)
  ]

  -- The value that a filter of the entries leaves for a key.
  abbrev pub kept : (V → Bool) → Option V → Option V
  kept p none = none
  kept p (some value) = if p value then some value else none

  pub lookup-filter_absent :
      (p : V → Bool) (key : String) (m : List (String × V))
      → lookup key m ≡ none
      → lookup key (filter (λ e. p e.1) m) ≡ none
  unfolding lookup
  lookup-filter_absent p key [] h = refl
  lookup-filter_absent p key ((k, value) ∷ rest) h = ground (arith, lookup-filter_absent p key rest)

  pub lookup-filter :
      (p : V → Bool) (key : String) (m : List (String × V))
      → IsMap m
      → lookup key (filter (λ e. p e.1) m) ≡ kept p (lookup key m)
  unfolding lookup IsMap
  lookup-filter p key [] d = refl
  lookup-filter p key ((k, value) ∷ rest) d =
      ground
        (arith, eq_iff k key, d.0, lookup-filter p key rest d.1, lookup-filter_absent p key rest)

  -- Removing the keys of some list, one after the other.
  unfoldable pub remove_each : List String → List (String × V) → List (String × V)
  remove_each [] m = m
  remove_each (key ∷ keys) m = remove_each keys (remove key m)

  -- The keys of the entries that pass a test.
  abbrev pub keys_where : (V → Bool) → List (String × V) → List String
  keys_where p m = map (λ e. e.0) (filter (λ e. p e.1) m)

  keys_where-has_key :
      (p : V → Bool) (key : String) (m : List (String × V))
      → lookup key m ≡ none
      → has_key key (keys_where p m) ≡ false
  unfolding lookup
  keys_where-has_key p key [] h = refl
  keys_where-has_key p key ((k, value) ∷ rest) h = ground (arith, keys_where-has_key p key rest)

  remove_each-cons :
      (keys : List String) (k : String) (value : V) (rest : List (String × V))
      → has_key k keys ≡ false
      → remove_each keys ((k, value) ∷ rest) ≡ (k, value) ∷ remove_each keys rest
  unfolding remove_each remove
  remove_each-cons [] k value rest h = refl
  remove_each-cons (key ∷ keys) k value rest h = elim (Bool-cases (str_eq key k)) [
    | inl e ↦ cc (rw e at h)
    | inr e ↦ rw (symmetric k key e) (remove_each-cons keys k value (remove key rest) (rw e at h))
  ]
    where
      symmetric : (a b : String) → str_eq b a ≡ false → str_eq a b ≡ false
      symmetric a b e = ground (arith, eq_iff a b, eq_iff b a)

  -- Collecting the keys that pass a test and removing them leaves the entries that fail it.
  pub remove_each-keys_where :
      (p : V → Bool) (m : List (String × V))
      → IsMap m
      → remove_each (keys_where p m) m ≡ filter (λ e. not (p e.1)) m
  unfolding IsMap remove_each remove
  remove_each-keys_where p [] d = refl
  remove_each-keys_where p ((k, value) ∷ rest) d = elim (Bool-cases (p value)) [
    | inl e ↦
        rw (e, remove_each, remove, eq_refl k, remove_absent k rest d.0)
          (remove_each-keys_where p rest d.1)
    | inr e ↦
        rw (e, remove_each-cons (keys_where p rest) k value rest (keys_where-has_key p k rest d.0))
          (ap (◌∷◌ (k, value)) (remove_each-keys_where p rest d.1))
  ]

  pub filter-IsMap :
      (p : V → Bool) (m : List (String × V)) → IsMap m → IsMap (filter (λ e. p e.1) m)
  unfolding IsMap
  filter-IsMap p [] d = tt
  filter-IsMap p ((k, value) ∷ rest) d = elim (Bool-cases (p value)) [
    | inl e ↦ rw e (lookup-filter_absent p k rest d.0, filter-IsMap p rest d.1)
    | inr e ↦ rw e (filter-IsMap p rest d.1)
  ]
