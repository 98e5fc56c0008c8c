-- ===== src/Base/Assoc.antt =====
-- `HashMap<String, V>` as an association list: `insert` writes over the entry of an old key in
-- place and puts a new key last, `remove` drops the key. The order in which Rust walks a map is
-- unspecified; a result that depends on it is stated up to that order.
pub mod Distinct
use Prim.Native.String.{String}
use text.Mathlib.Text.{◌==◌ as str_eq}
use text.Mathlib.TextEquality.{eq_iff}
use mathlib.Core.Path.{◌≡◌, refl}
use mathlib.Core.List.{List, [], ◌∷◌}
use mathlib.Core.Option.{Option, none, some}
use native.Mathlib.Omega.{arith}
use rust_node.Base.Tests.{if◌then◌else◌}

module _ {ℓ} {V : Type ℓ} where
  unfoldable pub lookup : String → List (String × V) → Option V
  lookup key [] = none
  lookup key ((k, value) ∷ rest) = if str_eq k key then some value else lookup key rest

  unfoldable pub remove : String → List (String × V) → List (String × V)
  remove key [] = []
  remove key ((k, value) ∷ rest) =
      let others = remove key rest in if str_eq k key then others else (k, value) ∷ others

  unfoldable pub insert : String → V → List (String × V) → List (String × V)
  insert key new [] = (key, new) ∷ []
  insert key new ((k, value) ∷ rest) =
      if str_eq k key then (key, new) ∷ rest else (k, value) ∷ insert key new rest

  pub lookup-remove :
      (removed key : String) (entries : List (String × V))
      → lookup key (remove removed entries)
        ≡ (if str_eq removed key then none else lookup key entries)
  unfolding lookup remove
  lookup-remove removed key [] = ground arith
  lookup-remove removed key ((k, value) ∷ rest) =
      ground
        (arith, lookup-remove removed key rest, eq_iff removed key, eq_iff k removed, eq_iff k key)

  pub lookup-insert :
      (inserted key : String) (new : V) (entries : List (String × V))
      → lookup key (insert inserted new entries)
        ≡ (if str_eq inserted key then some new else lookup key entries)
  unfolding lookup insert
  lookup-insert inserted key new [] = refl
  lookup-insert inserted key new ((k, value) ∷ rest) = ground (
    arith,
    lookup-insert inserted key new rest,
    eq_iff inserted key,
    eq_iff k inserted,
    eq_iff k key,
  )

  -- A key that is absent leaves `remove` nothing to do.
  pub remove_absent : (k : String) (m : List (String × V)) → lookup k m ≡ none → remove k m ≡ m
  unfolding lookup remove
  remove_absent k [] h = refl
  remove_absent k ((i, w) ∷ m) h = ground (arith, remove_absent k m)

  -- Inserting a fresh key and removing it gives the map back.
  pub remove-insert_absent :
      (k : String) (v : V) (m : List (String × V)) → lookup k m ≡ none → remove k (insert k v m) ≡ m
  unfolding lookup insert remove
  remove-insert_absent k v [] h = ground (arith, eq_iff k k)
  remove-insert_absent k v ((i, w) ∷ m) h = ground (arith, remove-insert_absent k v m)

  -- Writing over a key and writing its old value back gives the map back.
  pub insert-insert_present :
      (k : String) (v w : V) (m : List (String × V))
      → lookup k m ≡ some w
      → insert k w (insert k v m) ≡ m
  unfolding lookup insert
  insert-insert_present k v w [] h = cc
  insert-insert_present k v w ((i, u) ∷ m) h =
      ground (arith, eq_iff k k, eq_iff i k, insert-insert_present k v w m)
