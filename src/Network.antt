-- ===== src/Network.antt =====
-- src/network/transport/mod.rs and src/network/discovery/mod.rs: the data that nodes exchange.
-- `ServiceMetadata` comes from another crate and is a type here.
use rust_node.Base.{ℕ, String, List}

-- src/network/discovery/multicast_discovery.rs
pub record PeerInfo : Type 0 where
  pub public_key : String
  pub addresses : List String

-- The public key names a node.
pub record PeerId : Type 0 where
  pub public_key : String

abbrev pub new_peer_id : String → PeerId
new_peer_id node_id = record { public_key = node_id }

-- `version` is an i64, written as its distance from the least one, which keeps the order.
pub record NodeInfo (Service : Type 0) : Type 0 where
  pub peer_id : PeerId
  pub network_ids : List String
  pub addresses : List String
  pub services : List Service
  pub version : ℕ

-- A byte is a number below 256.
abbrev pub Bytes : Type 0
Bytes = List ℕ

pub record NetworkMessagePayloadItem : Type 0 where
  pub path : String
  pub value_bytes : Bytes
  pub correlation_id : String

pub record NetworkMessage : Type 0 where
  pub source : PeerId
  pub destination : PeerId
  pub message_type : String
  pub payloads : List NetworkMessagePayloadItem

-- The texts are cut where the formatted part begins.
pub data NetworkError : Type 0 where
  connection_error message_error discovery_error transport_error : String → NetworkError
  configuration_error : String → NetworkError
  -- The call does not return: a channel without reader has no room left.
  waits_for_ever : NetworkError
