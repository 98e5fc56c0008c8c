-- ===== src/Connections/Laws.antt =====
-- The pool of idle streams is bounded, and what the pool of connections says of a peer.
use rust_node.Base.{ℕ, ◌≤◌, ◌≡◌, refl, [], ◌∷◌, length, arith, length-append, length-init}
use rust_node.Connections.{StreamPool, new_streams, get_idle_stream, return_stream, clear}

-- One operation on a pool of streams.
pub data Step {Stream : Type 0} (p : StreamPool Stream) : StreamPool Stream → Type 0 where
  takes : Step p (get_idle_stream p).1
  returns : (stream : Stream) → Step p (return_stream stream p)
  clears : Step p (clear p)

pub data Reach {Stream : Type 0} (p : StreamPool Stream) : StreamPool Stream → Type 0 where
  here : Reach p p
  next : {r s : StreamPool Stream} → Reach p r → Step r s → Reach p s

module _ {Stream : Type 0} where
  -- No more idle streams than the pool was made for.
  abbrev pub IsBounded : ℕ → StreamPool Stream → Type 0
  IsBounded limit p = (p.max_idle_streams ≡ limit) × (length p.idle_streams ≤ limit)

  Step-IsBounded :
      {limit : ℕ} {p r : StreamPool Stream} → Step p r → IsBounded limit p → IsBounded limit r
  unfolding get_idle_stream return_stream clear
  Step-IsBounded {p = p} takes b = (b.0, omega (arith, length-init p.idle_streams, b.1))
  Step-IsBounded {p = p} (returns stream) b =
      ground (arith, length-append p.idle_streams (stream ∷ []), b.0, b.1)
  Step-IsBounded clears b = (b.0, omega arith)

  -- A pool that was made for some number of streams never holds more idle ones, after any sequence
  -- of taking, returning and clearing.
  pub Reach-IsBounded :
      (limit : ℕ) (p : StreamPool Stream) → Reach (new_streams limit) p → IsBounded limit p
  Reach-IsBounded limit p here = (refl, omega arith)
  Reach-IsBounded limit p (next reached step) =
      Step-IsBounded step (Reach-IsBounded limit _ reached)
