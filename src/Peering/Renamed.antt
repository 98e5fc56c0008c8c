-- ===== src/Peering/Renamed.antt =====
-- A peer whose service has another path than its name: its first announcement, and the next ones.
use mathlib.Core.List.Perm
use rust_node.Base.{List}
use rust_node.Topic
use rust_node.Peering.Known.{Peering}
