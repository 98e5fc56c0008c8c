-- ===== src/Transport/Ready.antt =====
-- A peer that has no connection has no status waiting, so setting its connection never waits for
-- room in the channel.
use rust_node.Base.{
  ℕ, String, str_eq, ◌≡◌, refl, ap, sym, ◌∙◌, subst, Bool, List, [], Option, none, some,
  Option-cases, Bool-cases, inl, inr,
}
use mathlib.Core.Option
use rust_node.Base.Assoc.{lookup, insert, lookup-insert, lookup-remove}
use rust_node.Network.{PeerId}
use rust_node.Connections.{
  Quinn, PeerState, ConnectionPool, new_state, get_or_create_peer, remove_peer,
}
use rust_node.Transport.Sending.{link, links}

-- What holds of each state.
abbrev pub IsFree : {Connection : Type 0} → Option Connection × List Bool → Type 0
IsFree l = l.0 ≡ none → l.1 ≡ []

some_injective : {A : Type 0} {a b : A} → some a ≡ some b → a ≡ b
some_injective e = cc e

module _ {q : Quinn} {Service : Type 0} where
  unfoldable pub IsReady : ConnectionPool q Service → Type 0
  IsReady pool =
      (k : String) (l : Option q.Connection × List Bool) → links k pool ≡ some l → IsFree l

  pub IsReady-links :
      (pool later : ConnectionPool q Service)
      → ((k : String) → links k later ≡ links k pool)
      → IsReady pool
      → IsReady later
  unfolding IsReady
  IsReady-links pool later same ready k l h = ready k l (sym (same k) ∙ h)

  pub IsReady-insert :
      (key : String) (s : PeerState q Service) (pool : ConnectionPool q Service)
      → IsFree (link s)
      → IsReady pool
      → IsReady (insert key s pool)
  unfolding IsReady
  IsReady-insert key s pool free ready k l h = elim (Bool-cases (str_eq key k)) [
    | inl e ↦ subst IsFree (some_injective (rw (lookup-insert key k s pool, e) at h)) free
    | inr e ↦ ready k l (rw (lookup-insert key k s pool, e) at h)
  ]

  pub IsReady-remove_peer :
      (id : PeerId) (pool : ConnectionPool q Service)
      → IsReady pool
      → IsReady (remove_peer id pool).1
  unfolding IsReady remove_peer
  IsReady-remove_peer id pool ready k l h = elim (Bool-cases (str_eq id.public_key k)) [
    | inl e ↦ absurd (none_some (rw (lookup-remove id.public_key k pool, e) at h))
    | inr e ↦ ready k l (rw (lookup-remove id.public_key k pool, e) at h)
  ]
    where
      none_some : {A : Type 0} {a : A} → none ≡ some a → ⊥
      none_some e = cc e

  -- The state that the pool has or makes for a peer that is not connected, and the pool with it.
  pub get_or_create_peer-IsReady :
      (now : ℕ) (id : PeerId) (address : String) (limit : ℕ) (pool : ConnectionPool q Service)
      → IsReady pool
      → IsFree (link (get_or_create_peer now id address limit pool).0)
        × IsReady (get_or_create_peer now id address limit pool).1
  unfolding get_or_create_peer IsReady
  get_or_create_peer-IsReady now id address limit pool ready =
      elim (Option-cases (lookup id.public_key pool)) [
        | inl e ↦ rw e (
          λ n. refl,
          IsReady-insert id.public_key (new_state now id address limit) pool (λ n. refl) ready,
        )
        | inr (s, e) ↦ rw e (found s e, ready)
      ]
    where
      found : (s : PeerState q Service) → lookup id.public_key pool ≡ some s → IsFree (link s)
      found s e = ready id.public_key (link s) (ap (Option.map link) e)
