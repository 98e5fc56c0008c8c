-- ===== src/Balancing/Laws.antt =====
-- The selected index is in range, and a row of selections goes round.
use native.Mathlib.Nat.{mod-lt, mod-eq_of_lt, add-zero}
use rust_node.Base.{
  ℕ, zero, suc, ◌+◌, ◌%◌, ◌^◌, ◌<◌, ◌≡◌, ◌≢◌, refl, sym, ap, ◌∙◌, List, [], ◌∷◌, length, get_elem?,
  some, arith,
}
use rust_node.Balancing.{RoundRobinLoadBalancer, select_handler, select_row}

module _ {ℓ} {Handler : Type ℓ} where
  -- There is a handler at the selected index, whatever the counter, so reading it cannot fail.
  pub select_handler-get_elem? :
      (handlers : List Handler) (balancer : RoundRobinLoadBalancer)
      → handlers ≢ []
      → (handler : Handler) × (get_elem? handlers (select_handler handlers balancer).0
          ≡ some handler)
  unfolding select_handler
  select_handler-get_elem? [] balancer n = absurd (n refl)
  select_handler-get_elem? (h ∷ hs) balancer n =
      present (h ∷ hs) (balancer.current_index % suc (length hs))
        (mod-lt balancer.current_index (omega arith))
    where
      present :
          (xs : List Handler) (i : ℕ) → i < length xs → (x : Handler) × (get_elem? xs i ≡ some x)
      present [] i h = absurd (omega arith)
      present (x ∷ xs) zero h = (x, refl)
      present (x ∷ xs) (suc i) h = present xs i (omega arith)

  -- As long as the counter does not wrap, the i-th of a row of selections takes the index that lies i
  -- places after the first one, around the end of the list.
  select_row-round :
      (n i : ℕ) (handlers : List Handler) (balancer : RoundRobinLoadBalancer)
      → handlers ≢ []
      → i < n
      → balancer.current_index + n < 2 ^ 64
      → get_elem? (select_row n handlers balancer) i
        ≡ some ((balancer.current_index + i) % length handlers)
  unfolding select_row select_handler
  select_row-round n i [] balancer m h room = absurd (m refl)
  select_row-round zero i (x ∷ xs) balancer m h room = absurd (omega arith)
  select_row-round (suc n) zero (x ∷ xs) balancer m h room =
      ap (λ k. some (k % suc (length xs))) (sym (add-zero balancer.current_index))
  select_row-round (suc n) (suc i) (x ∷ xs) balancer m h room =
      let next : (balancer.current_index + 1) % 2 ^ 64 ≡ balancer.current_index + 1 =
        mod-eq_of_lt (omega arith) in
      let later =
        select_row-round n i (x ∷ xs)
          (record { current_index = (balancer.current_index + 1) % 2 ^ 64 }) m (omega arith)
          (omega (arith, next)) in
      later ∙ ap (λ k. some (k % suc (length xs))) (omega (arith, next))
