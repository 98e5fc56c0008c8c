-- ===== src/Balancing.antt =====
-- src/services/load_balancing.rs: `RoundRobinLoadBalancer`. Its counter is an atomic `usize` of 64
-- bits, and `fetch_add` wraps. A selection is one atomic step, so selections by several tasks are
-- the same calls in some order.
pub mod Laws
mod Tests
use rust_node.Base.{ℕ, suc, ◌+◌, ◌%◌, ◌^◌, zero, List, [], ◌∷◌, length}

pub record RoundRobinLoadBalancer : Type 0 where
  pub current_index : ℕ

abbrev pub new : RoundRobinLoadBalancer
new = record { current_index = 0 }

module _ {ℓ} {Handler : Type ℓ} where
  -- The index, and the balancer afterwards.
  unfoldable pub select_handler : List Handler → RoundRobinLoadBalancer → ℕ × RoundRobinLoadBalancer
  select_handler [] balancer = (0, balancer)
  select_handler (h ∷ hs) balancer = (
    balancer.current_index % length (h ∷ hs),
    record { current_index = (balancer.current_index + 1) % 2 ^ 64 },
  )

  -- The indices of a row of selections from the same handlers.
  unfoldable pub select_row : ℕ → List Handler → RoundRobinLoadBalancer → List ℕ
  select_row zero handlers balancer = []
  select_row (suc n) handlers balancer =
      let (index, later) = select_handler handlers balancer in index ∷ select_row n handlers later
