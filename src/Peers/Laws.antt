-- ===== src/Peers/Laws.antt =====
-- The cleanup keeps exactly the fresh peers, and every registry that the operations lead to files
-- each peer once, under its own public key.
use rust_node.Base.{
  ℕ, ◌+◌, String, ◌≡◌, refl, Bool, not, List, [], ◌∷◌, filter, length, Option, none, some,
  Bool-cases, inl, inr, arith, str_eq, eq_iff,
}
use rust_node.Network.{PeerId, PeerInfo}
use rust_node.Base.Assoc.{lookup, insert, remove, lookup-insert, lookup-remove}
use rust_node.Base.Assoc.Distinct.{
  IsMap, insert-IsMap, remove-IsMap, filter-IsMap, kept, keys_where, lookup-filter,
  remove_each-keys_where,
}
use rust_node.Peers.{
  PeerEntry, PeerStatus, PeerRegistry, PeerRegistryOptions, with_options, added, refreshed,
  set_status, add_peer, change_peer, update_peer_status, update_peer, remove_peer, is_stale,
  cleanup_stale_peers,
}

keys_where-length :
    {V : Type 0} (p : V → Bool) (m : List (String × V))
    → length (keys_where p m) + length (filter (λ e. not (p e.1)) m) ≡ length m
keys_where-length p [] = refl
keys_where-length p ((k, value) ∷ rest) = elim (Bool-cases (p value)) [
  | inl e ↦ rw e (omega (arith, keys_where-length p rest))
  | inr e ↦ rw e (omega (arith, keys_where-length p rest))
]

-- Each peer is filed once, under its own public key.
unfoldable pub IsFiled : PeerRegistry → Type 0
IsFiled r =
    IsMap r.peers
    × ((key : String) (entry : PeerEntry)
        → lookup key r.peers ≡ some entry
        → entry.peer_info.public_key ≡ key)

-- One operation on the registry, at any time of the clock.
pub data Step (r : PeerRegistry) : PeerRegistry → Type 0 where
  adds : (now later : ℕ) (info : PeerInfo) → Step r (add_peer now later info r)
  updates_status :
      (now : ℕ) (id : PeerId) (s : PeerStatus) → Step r (update_peer_status now id s r).1
  updates : (now : ℕ) (info : PeerInfo) → Step r (update_peer now info r).1
  removes : (id : PeerId) → Step r (remove_peer id r).1
  cleans : (now : ℕ) → Step r (cleanup_stale_peers now r).1

pub data Reach (r : PeerRegistry) : PeerRegistry → Type 0 where
  here : Reach r r
  next : {s t : PeerRegistry} → Reach r s → Step s t → Reach r t

insert-IsFiled :
    (r : PeerRegistry) (key : String) (entry : PeerEntry)
    → entry.peer_info.public_key ≡ key
    → IsFiled r
    → IsFiled (record r { peers = insert key entry r.peers })
unfolding IsFiled
insert-IsFiled r key entry own d = (insert-IsMap key entry r.peers d.0, own_key)
  where
    own_key :
        (k : String) (found : PeerEntry)
        → lookup k (insert key entry r.peers) ≡ some found
        → found.peer_info.public_key ≡ k
    own_key k found h = elim (Bool-cases (str_eq key k)) [
      | inl e ↦ cc (rw (lookup-insert key k entry r.peers, e) at h, (eq_iff key k).0 e, own)
      | inr e ↦ d.1 k found (rw (lookup-insert key k entry r.peers, e) at h)
    ]

added-key :
    (now later : ℕ) (info : PeerInfo) (o : Option PeerEntry)
    → (added now later info o).peer_info.public_key ≡ info.public_key
added-key now later info none = refl
added-key now later info (some entry) = refl

add_peer-IsFiled :
    (now later : ℕ) (info : PeerInfo) (r : PeerRegistry)
    → IsFiled r
    → IsFiled (add_peer now later info r)
unfolding add_peer
add_peer-IsFiled now later info r d =
    insert-IsFiled r info.public_key (added now later info (lookup info.public_key r.peers))
      (added-key now later info (lookup info.public_key r.peers)) d

change_peer-IsFiled :
    (key : String) (change : PeerEntry → PeerEntry) (o : Option PeerEntry) (r : PeerRegistry)
    → lookup key r.peers ≡ o
    → ((entry : PeerEntry)
        → entry.peer_info.public_key ≡ key
        → (change entry).peer_info.public_key ≡ key)
    → IsFiled r
    → IsFiled (change_peer key change o r).1
unfolding change_peer IsFiled
change_peer-IsFiled key change none r h own d = d
change_peer-IsFiled key change (some entry) r h own d =
    insert-IsFiled r key (change entry) (own entry (d.1 key entry h)) d

remove_peer-IsFiled : (id : PeerId) (r : PeerRegistry) → IsFiled r → IsFiled (remove_peer id r).1
unfolding remove_peer IsFiled
remove_peer-IsFiled id r d = (remove-IsMap id.public_key r.peers d.0, own_key)
  where
    own_key :
        (k : String) (found : PeerEntry)
        → lookup k (remove id.public_key r.peers) ≡ some found
        → found.peer_info.public_key ≡ k
    own_key k found h = elim (Bool-cases (str_eq id.public_key k)) [
      | inl e ↦ cc (rw (lookup-remove id.public_key k r.peers, e) at h)
      | inr e ↦ d.1 k found (rw (lookup-remove id.public_key k r.peers, e) at h)
    ]

-- Cleaning up keeps exactly the entries that are not stale, and the count is the number of entries
-- that go, in a registry that files each peer once.
pub cleanup_stale_peers-contents :
    (now : ℕ) (r : PeerRegistry)
    → IsMap r.peers
    → ((cleanup_stale_peers now r).1.peers
        ≡ filter (λ e. not (is_stale now r.options.peer_ttl e.1)) r.peers)
      × ((cleanup_stale_peers now r).0 + length (cleanup_stale_peers now r).1.peers
          ≡ length r.peers)
unfolding cleanup_stale_peers
cleanup_stale_peers-contents now r d =
    let stale = is_stale now r.options.peer_ttl in
    (
      remove_each-keys_where stale r.peers d,
      rw (remove_each-keys_where stale r.peers d) (keys_where-length stale r.peers),
    )

kept-some : {V : Type 0} (p : V → Bool) (o : Option V) (v : V) → kept p o ≡ some v → o ≡ some v
kept-some p none v h = cc
kept-some p (some w) v h = ground arith

cleanup_stale_peers-IsFiled :
    (now : ℕ) (r : PeerRegistry) → IsFiled r → IsFiled (cleanup_stale_peers now r).1
unfolding IsFiled
cleanup_stale_peers-IsFiled now r d = rw (cleanup_stale_peers-contents now r d.0).0 (
  filter-IsMap fresh r.peers d.0,
  λ k found h.
      d.1 k found
        (kept-some fresh (lookup k r.peers) found (rw (lookup-filter fresh k r.peers d.0) at h)),
)
  where
    fresh : PeerEntry → Bool
    fresh entry = not (is_stale now r.options.peer_ttl entry)

Step-IsFiled : {r s : PeerRegistry} → Step r s → IsFiled r → IsFiled s
unfolding update_peer_status update_peer
Step-IsFiled (adds now later info) d = add_peer-IsFiled now later info _ d
Step-IsFiled {r} (updates_status now id s) d =
    change_peer-IsFiled id.public_key (set_status now s) (lookup id.public_key r.peers) r refl
      (λ entry own. own) d
Step-IsFiled {r} (updates now info) d =
    change_peer-IsFiled info.public_key (refreshed now info) (lookup info.public_key r.peers) r refl
      (λ entry own. refl) d
Step-IsFiled (removes id) d = remove_peer-IsFiled id _ d
Step-IsFiled (cleans now) d = cleanup_stale_peers-IsFiled now _ d

with_options-IsFiled : (options : PeerRegistryOptions) → IsFiled (with_options options)
unfolding IsFiled IsMap lookup
with_options-IsFiled options = (tt, λ k entry h. cc)

-- Every registry that the operations lead to from an empty one files each peer once, under the
-- public key of its own information.
pub Reach-IsFiled :
    (options : PeerRegistryOptions) (r : PeerRegistry) → Reach (with_options options) r → IsFiled r
Reach-IsFiled options r here = with_options-IsFiled options
Reach-IsFiled options r (next reached step) = Step-IsFiled step (Reach-IsFiled options _ reached)
