-- ===== src/Topic/Bitmap/Laws.antt =====
-- Reading a slot of the bitmap after a write or a clear.
use native.Mathlib.Nat.{pow-suc, div-div-eq-div-mul, div-mul-le_self}
use rust_node.Base.{
  ℕ, zero, suc, ◌+◌, ◌-◌, ◌*◌, ◌/◌, ◌%◌, ◌<◌, ◌≤◌, ◌==◌, if◌then◌else◌, ◌≡◌, refl, arith,
}
use rust_node.Topic.Bitmap.{clear_segment_type, set_segment_type, get_segment_type, slot}

-- The same by recursion on the index, one base-4 digit at a time.
read : ℕ → ℕ → ℕ
read b zero = b % 4
read b (suc i) = read (b / 4) i

write : ℕ → ℕ → ℕ → ℕ
write b zero t = b - b % 4 + t
write b (suc i) t = b % 4 + 4 * write (b / 4) i t

read_zero : (i : ℕ) → read 0 i ≡ 0
unfolding read
read_zero zero = refl
read_zero (suc i) = read_zero i

kept_digits : (b t : ℕ) → t < 4 → (b - b % 4 + t) / 4 ≡ b / 4
kept_digits b t h = omega arith

low_digit : (b w : ℕ) → (b % 4 + 4 * w) % 4 ≡ b % 4
low_digit b w = omega arith

high_digits : (b w : ℕ) → (b % 4 + 4 * w) / 4 ≡ w
high_digits b w = omega arith

small_shift : (i : ℕ) → i < 32 → i * 2 % 64 ≡ i * 2
small_shift i h = omega arith

read-write : (b i j t : ℕ) → t < 4 → read (write b i t) j ≡ (if i == j then t else read b j)
unfolding read write
read-write b zero zero t h = omega arith
read-write b zero (suc j) t h = rw (kept_digits b t h) (ground arith)
read-write b (suc i) zero t h = ground (arith, low_digit b (write (b / 4) i t))
read-write b (suc i) (suc j) t h =
    rw (high_digits b (write (b / 4) i t)) (ground (arith, read-write (b / 4) i j t h))

double_suc : (i : ℕ) → suc i * 2 ≡ suc (suc (i * 2))
double_suc i = omega arith

slot-suc : (i : ℕ) → suc i < 32 → slot (suc i) ≡ 4 * slot i
slot-suc i h =
    rw (small_shift (suc i) h, small_shift i (omega arith), double_suc i)
      (omega (arith, pow-suc 2 (suc (i * 2)), pow-suc 2 (i * 2)))

get-read : (b i : ℕ) → i < 32 → get_segment_type b i ≡ read b i
unfolding get_segment_type read
get-read b zero h = omega arith
get-read b (suc i) h =
    rw (slot-suc i h, ← div-div-eq-div-mul b 4 (slot i)) (get-read (b / 4) i (omega arith))

below_slot : (c p : ℕ) → c / p % 4 * p ≤ c
below_slot c p = grind (arith, div-mul-le_self c p)

set-write : (b i t : ℕ) → i < 32 → set_segment_type b i t ≡ write b i t
unfolding set_segment_type write
set-write b zero t h = omega arith
set-write b (suc i) t h =
    let p = slot i in
    let c = b / 4 in
    rw (slot-suc i h, ← div-div-eq-div-mul b 4 (slot i))
      (omega (arith, below_slot c p, set-write c i t (omega arith)))

-- A read after a write gives what was written at that index, and any other slot as it was, for the
-- 32 indices that have a slot of their own.
pub get-set_segment_type :
    (bitmap i j t : ℕ)
    → i < 32
    → j < 32
    → t < 4
    → get_segment_type (set_segment_type bitmap i t) j
      ≡ (if i == j then t else get_segment_type bitmap j)
get-set_segment_type bitmap i j t hi hj ht =
    rw (set-write bitmap i t hi, get-read (write bitmap i t) j hj, get-read bitmap j hj)
      (read-write bitmap i j t ht)

-- Clearing a slot is writing a zero into it.
pub clear-set : (bitmap i : ℕ) → clear_segment_type bitmap i ≡ set_segment_type bitmap i 0
unfolding clear_segment_type set_segment_type
clear-set bitmap i = omega arith

pub get_segment_type_zero : (i : ℕ) → i < 32 → get_segment_type 0 i ≡ 0
get_segment_type_zero i h = rw (get-read 0 i h) (read_zero i)

pub get_segment_type-lt : (bitmap i : ℕ) → get_segment_type bitmap i < 4
unfolding get_segment_type
get_segment_type-lt bitmap i = omega arith
