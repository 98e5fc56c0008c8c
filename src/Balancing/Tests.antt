-- ===== src/Balancing/Tests.antt =====
-- Runs of the balancer, and the theorems about it at concrete inputs.
use rust_node.Base.{ℕ, ◌≡◌, refl, List, [], ◌∷◌}
use rust_node.Balancing.{RoundRobinLoadBalancer, select_handler, select_row}

abbrev handlers : List ℕ
handlers = 10 ∷ 11 ∷ 12 ∷ []

abbrev seventh : RoundRobinLoadBalancer
seventh = record { current_index = 7 }

select_row_runs : select_row 4 handlers seventh ≡ 1 ∷ 2 ∷ 0 ∷ 1 ∷ []
unfolding select_row select_handler
select_row_runs = refl
