-- ===== src/Topic/Bitmap.antt =====
-- src/routing/mod.rs: the two bits that `segment_type_bitmap`, a `u64`, keeps for each segment.
-- `!(0b11 << k)` as a mask clears the two bits at `k`: it takes `(b / 2 ^ k) % 4 * 2 ^ k` off, and
-- `|=` into cleared bits adds. A shift by 64 or more wraps to its remainder by 64, as it does in a
-- build with no overflow checks; with them it panics. Segments below index 32 never get there.
pub mod Laws
use rust_node.Base.{ℕ, ◌+◌, ◌-◌, ◌*◌, ◌/◌, ◌%◌, ◌^◌, ◌==◌, Bool}

abbrev pub segment_type_literal : ℕ
segment_type_literal = 0

abbrev pub segment_type_template : ℕ
segment_type_template = 1

abbrev pub segment_type_single_wildcard : ℕ
segment_type_single_wildcard = 2

abbrev pub segment_type_multi_wildcard : ℕ
segment_type_multi_wildcard = 3

-- `1 << (index * 2)`
abbrev pub slot : ℕ → ℕ
slot index = 2 ^ (index * 2 % 64)

unfoldable pub clear_segment_type : ℕ → ℕ → ℕ
clear_segment_type bitmap index = bitmap - bitmap / slot index % 4 * slot index

unfoldable pub set_segment_type : ℕ → ℕ → ℕ → ℕ
unfolding clear_segment_type
set_segment_type bitmap index segment_type =
    clear_segment_type bitmap index + segment_type * slot index

unfoldable pub get_segment_type : ℕ → ℕ → ℕ
get_segment_type bitmap index = bitmap / slot index % 4
