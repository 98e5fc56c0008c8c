-- ===== src/Peers.antt =====
-- src/network/transport/peer_registry.rs: `PeerRegistry`, the peers that a node knows by their
-- public key. A time is a number of nanoseconds; the clock's reading is an argument of each
-- operation. The map of metadata that each entry has starts empty and only `set_metadata` writes it.
pub mod Laws
mod Tests
use rust_node.Base.{
  ℕ, ◌-◌, String, Bool, true, false, List, [], ◌∷◌, map, filter, length, Option, none, some, Result,
  ok, err, if◌then◌else◌, ltb, leb,
}
use rust_node.Network.{PeerId, PeerInfo}
use rust_node.Base.Assoc.{lookup, insert, remove}
use rust_node.Base.Assoc.Distinct.{remove_each, keys_where}

pub data PeerStatus : Type 0 where
  discovered connecting connected disconnecting disconnected : PeerStatus

-- The derived `==`.
abbrev pub status_eq : PeerStatus → PeerStatus → Bool
status_eq discovered discovered = true
status_eq connecting connecting = true
status_eq connected connected = true
status_eq disconnecting disconnecting = true
status_eq disconnected disconnected = true
status_eq _ _ = false

pub record PeerEntry : Type 0 where
  pub peer_info : PeerInfo
  pub last_seen : ℕ
  pub status : PeerStatus
  pub status_changed : ℕ
  pub connection_attempts : ℕ
  pub metadata : List (String × String)

pub record PeerRegistryOptions : Type 0 where
  pub max_peers_per_network : ℕ
  pub peer_ttl : ℕ
  pub cleanup_interval : ℕ

pub record PeerRegistry : Type 0 where
  pub peers : List (String × PeerEntry)
  pub options : PeerRegistryOptions

-- `anyhow::bail!`, with the key of the peer.
pub data PeerError : Type 0 where
  peer_not_found : String → PeerError

-- Two readings of the clock: `last_seen` first, `status_changed` second.
abbrev pub new_entry : ℕ → ℕ → PeerInfo → PeerEntry
new_entry now later info = record {
  peer_info = info;
  last_seen = now;
  status = discovered;
  status_changed = later;
  connection_attempts = 0;
  metadata = [];
}

abbrev pub set_status : ℕ → PeerStatus → PeerEntry → PeerEntry
set_status now status entry = record entry { status = status; status_changed = now }

unfoldable pub set_metadata : String → String → PeerEntry → PeerEntry
set_metadata key value entry = record entry { metadata = insert key value entry.metadata }

-- `PeerRegistryOptions::default`: an hour and five minutes.
abbrev pub default_options : PeerRegistryOptions
default_options = record {
  max_peers_per_network = 100;
  peer_ttl = 3600000000000;
  cleanup_interval = 300000000000;
}

abbrev pub with_options : PeerRegistryOptions → PeerRegistry
with_options options = record { peers = []; options = options }

abbrev pub new : PeerRegistry
new = with_options default_options

-- The entry seen now, with the announced information.
abbrev pub refreshed : ℕ → PeerInfo → PeerEntry → PeerEntry
refreshed now info entry = record entry { last_seen = now; peer_info = info }

-- The entry that `add_peer` leaves for the peer: the old one refreshed, or a new one.
abbrev pub added : ℕ → ℕ → PeerInfo → Option PeerEntry → PeerEntry
added now later info none = new_entry now later info
added now later info (some entry) = refreshed now info entry

-- Always `Ok`; a new entry reads the clock twice.
unfoldable pub add_peer : ℕ → ℕ → PeerInfo → PeerRegistry → PeerRegistry
add_peer now later info r = record r {
  peers = insert info.public_key (added now later info (lookup info.public_key r.peers)) r.peers;
}

-- Change the entry of a key through `get_mut`, where there is one.
unfoldable pub change_peer :
    String
    → (PeerEntry → PeerEntry)
    → Option PeerEntry
    → PeerRegistry
    → Result (Unit {0}) PeerError × PeerRegistry
change_peer key change none r = (err (peer_not_found key), r)
change_peer key change (some entry) r =
    (ok tt, record r { peers = insert key (change entry) r.peers })

unfoldable pub update_peer_status :
    ℕ → PeerId → PeerStatus → PeerRegistry → Result (Unit {0}) PeerError × PeerRegistry
update_peer_status now id status r =
    change_peer id.public_key (set_status now status) (lookup id.public_key r.peers) r

unfoldable pub update_peer :
    ℕ → PeerInfo → PeerRegistry → Result (Unit {0}) PeerError × PeerRegistry
update_peer now info r =
    change_peer info.public_key (refreshed now info) (lookup info.public_key r.peers) r

unfoldable pub find_peer : String → PeerRegistry → Option PeerEntry
find_peer key r = lookup key r.peers

unfoldable pub find_peers_by_status : PeerStatus → PeerRegistry → List PeerEntry
find_peers_by_status status r = filter (λ p. status_eq p.status status) (map (λ e. e.1) r.peers)

unfoldable pub get_all_peers : PeerRegistry → List PeerEntry
get_all_peers r = map (λ e. e.1) r.peers

abbrev pub removal : String → Option PeerEntry → Result (Unit {0}) PeerError
removal key none = err (peer_not_found key)
removal key (some entry) = ok tt

unfoldable pub remove_peer : PeerId → PeerRegistry → Result (Unit {0}) PeerError × PeerRegistry
remove_peer id r = (
  removal id.public_key (lookup id.public_key r.peers),
  record r { peers = remove id.public_key r.peers },
)

-- Seen longer ago than the time to live. A time in the future gives an error, and the peer stays.
abbrev pub is_stale : ℕ → ℕ → PeerEntry → Bool
is_stale now ttl entry = if leb entry.last_seen now then ltb ttl (now - entry.last_seen) else false

-- The keys of the stale peers are collected, and then removed one after the other and counted.
unfoldable pub cleanup_stale_peers : ℕ → PeerRegistry → ℕ × PeerRegistry
cleanup_stale_peers now r =
    let stale_keys = keys_where (is_stale now r.options.peer_ttl) r.peers in
    (length stale_keys, record r { peers = remove_each stale_keys r.peers })
