-- ===== src/Base/Calls.antt =====
-- A call that changes a state and may fail, with `?` as the monad's bind: an error leaves what was
-- done before it.
pub mod Laws
use mathlib.Core.Bool.{Bool, true, false}
use rust_node.Base.Results.{Result, ok, err}

abbrev pub Call {ℓ κ μ} : Type ℓ → Type κ → Type μ → Type (ℓ ⊔ κ ⊔ μ)
Call S E A = S → Result A E × S

module _ {ℓ κ μ ν} {S : Type ℓ} {E : Type κ} {A : Type μ} {B : Type ν} where
  abbrev pub after : (A → Call S E B) → Result A E × S → Result B E × S
  after next (err failure, s) = (err failure, s)
  after next (ok value, s) = next value s

  infixl 5 ◌>>=◌
  abbrev pub ◌>>=◌ : Call S E A → (A → Call S E B) → Call S E B
  (call >>= next) s = after next (call s)

module _ {ℓ κ μ} {S : Type ℓ} {E : Type κ} {A : Type μ} where
  infixl 5 ◌>>◌
  abbrev pub ◌>>◌ : Call S E (Unit {0}) → Call S E A → Call S E A
  (call >> next) s = after (λ _. next) (call s)

  abbrev pub return : A → Call S E A
  return value s = (ok value, s)

  abbrev pub fail : E → Call S E A
  fail failure s = (err failure, s)

  -- A result of a computation that has no state.
  abbrev pub lift : Result A E → Call S E A
  lift r s = (r, s)

abbrev pub modify {ℓ κ} : {S : Type ℓ} {E : Type κ} → (S → S) → Call S E (Unit {0})
modify change s = (ok tt, change s)

-- An early return with an error where the test holds.
abbrev pub fail_when {ℓ κ} : {S : Type ℓ} {E : Type κ} → Bool → E → Call S E (Unit {0})
fail_when true failure s = (err failure, s)
fail_when false failure s = (ok tt, s)
