-- ===== src/Base/Calls/Laws.antt =====
-- A sequence of calls that change a state: what it leaves alone, and when it succeeds.
use mathlib.Core.Path.{◌≡◌, refl, ◌∙◌}
use mathlib.Core.Logic.{◌≢◌}
use rust_node.Base.Results.{Result, ok, err}
use rust_node.Base.Calls.{Call, after}

module _ {ℓ κ μ ν} {S : Type ℓ} {E : Type κ} {A : Type μ} {B : Type ν} where
  -- What both parts of a sequence leave alone, the sequence leaves alone.
  pub after-keeps {ρ} :
      {X : Type ρ} (look : S → X) {x : X} (next : A → Call S E B) (r : Result A E × S)
      → look r.1 ≡ x
      → ((a : A) (s : S) → look (next a s).1 ≡ look s)
      → look (after next r).1 ≡ x
  after-keeps look next (err failure, s) h keeps = h
  after-keeps look next (ok value, s) h keeps = keeps value s ∙ h

  -- A sequence succeeds where both parts do.
  pub after-eq-ok :
      (next : A → Call S E B) (r : Result A E × S) {b : B}
      → (after next r).0 ≡ ok b
      → (a : A) × (r.0 ≡ ok a) × ((next a r.1).0 ≡ ok b)
  after-eq-ok next (err failure, s) h = cc
  after-eq-ok next (ok value, s) h = (value, refl, h)

module _ {ℓ κ μ ν} {S : Type ℓ} {E : Type κ} {A : Type μ} {B : Type ν} where
  -- An error that neither part of a sequence has, the sequence does not have.
  pub after-avoids :
      (next : A → Call S E B) (r : Result A E × S) (failure : E)
      → r.0 ≢ err failure
      → ((a : A) (s : S) → (next a s).0 ≢ err failure)
      → (after next r).0 ≢ err failure
  after-avoids next (err e, s) failure first second = λ h. first (cc h)
  after-avoids next (ok value, s) failure first second = second value s
