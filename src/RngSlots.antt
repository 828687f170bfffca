-- ===== src/RngSlots.antt =====
-- The masks of slots of lib/uwb_rng/src/slots.c: which nodes answer a ranging request, and when.
pub mod Count
pub mod Rank
pub mod Places
mod Tests
use uwb_core.Common.{
  ℕ, zero, suc, ◌+◌, ◌-◌, ◌*◌, ◌/◌, ◌%◌, ◌^◌, Bool, true, false, if◌then◌else◌, ◌==◌, ltb, u32,
  sub32,
}

-- the lower of two binary digits
abbrev pub both_bits : ℕ → ℕ → ℕ
both_bits a b = if ltb a b then a else b

-- `a & b` on numbers of `w` bits
unfoldable pub and_bits : ℕ → ℕ → ℕ → ℕ
and_bits zero a b = 0
and_bits (suc w) a b = both_bits (a % 2) (b % 2) + 2 * and_bits w (a / 2) (b / 2)

-- The loop of `NumberOfBits` on numbers of `w` bits, with fuel: `n &= (n-1)`.
unfoldable pub count_bits : ℕ → ℕ → ℕ → ℕ
unfolding and_bits
count_bits w zero n = 0
count_bits w (suc fuel) n =
    let rest = count_bits w fuel (and_bits w n (n - 1)) in if n == 0 then 0 else suc rest

unfoldable pub number_of_bits : ℕ → ℕ
unfolding count_bits
number_of_bits n = count_bits 32 32 n

-- The loop of `BitPosition`, with fuel: `n = n >> 1`.
unfoldable pub shifts : ℕ → ℕ → ℕ
shifts zero n = 0
shifts (suc fuel) n = let rest = shifts fuel (n / 2) in if n == 0 then 0 else suc rest

unfoldable pub bit_position : ℕ → ℕ
unfolding shifts
bit_position n = shifts 32 n

-- `slot_mode_t`
pub data SlotMode : Type 0 where
  slot_remaining : SlotMode
  slot_position : SlotMode

-- `(uint32_t)~0UL >> (sizeof(uint32_t) * 8 - idx)` and `(uint32_t)~0UL << idx`
abbrev pub low_mask : ℕ → ℕ
low_mask idx = 4294967295 / 2 ^ (32 - idx)

abbrev pub high_mask : ℕ → ℕ
high_mask idx = u32 (4294967295 * 2 ^ idx)

-- `BitIndex`, for a mask and a single bit of it
unfoldable pub bit_index : ℕ → ℕ → SlotMode → ℕ
unfolding bit_position number_of_bits and_bits
bit_index nslots_mask n slot_position =
    sub32 (number_of_bits (and_bits 32 nslots_mask (low_mask (bit_position n)))) 1
bit_index nslots_mask n slot_remaining =
    sub32 (number_of_bits (and_bits 32 nslots_mask (high_mask (bit_position n)))) 1
