-- ===== src/Connections/Tests.antt =====
-- Runs of the pool of streams, and its bound at a concrete run.
use rust_node.Base.{ℕ, ◌≡◌, refl, [], ◌∷◌, some}
use rust_node.Connections.{StreamPool, new_streams, get_idle_stream, return_stream, clear}
use rust_node.Connections.Laws.{IsBounded, here, next, returns, Reach-IsBounded}

runs : Unit {0}
unfolding get_idle_stream return_stream clear
runs = tt

-- The third stream is dropped, and the last of the others is taken first.
abbrev full : StreamPool ℕ
full = return_stream 9 (return_stream 8 (return_stream 7 (new_streams 2)))

drops_third : full.idle_streams ≡ 7 ∷ 8 ∷ []
unfolding runs
drops_third = refl

takes_last : (get_idle_stream full).0 ≡ some 8
unfolding runs
takes_last = refl

Reach-IsBounded_example : IsBounded 2 full
Reach-IsBounded_example =
    Reach-IsBounded 2 full (next (next (next here (returns 7)) (returns 8)) (returns 9))
