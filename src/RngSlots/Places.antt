-- ===== src/RngSlots/Places.antt =====
-- `BitIndex`: the place of a member of the mask among the members, and how many follow it.
use uwb_core.Common.{
  ℕ, zero, suc, ◌+◌, ◌-◌, ◌/◌, ◌%◌, ◌^◌, ◌≤◌, ◌<◌, ◌≡◌, ◌≢◌, ◌⊎◌, sym, ◌∙◌, refl, inl, inr, u32,
  sub32, arith,
}
use uwb_core.RngSlots.{
  and_bits, bit_position, number_of_bits, slot_position, slot_remaining, high_mask, bit_index,
}
use uwb_core.RngSlots.Count.{ones, two_to, ones_le, number_of_bits_lem}
use uwb_core.RngSlots.Rank.{
  digit, low, high, ones_next, ones_lt, and_low, and_high, shifts-two_to, member_digit,
  digit_member, low_mask_lem, high_mask_lem, count_and,
}

-- a member's place is the number of members before it
pub bit_index-ones :
    (m i : ℕ)
    → i < 32
    → and_bits 32 m (two_to i) ≢ 0
    → bit_index m (two_to i) slot_position ≡ ones i m
unfolding bit_index bit_position
bit_index-ones m i lt ne =
    let next = ones_next i m in
    let one : digit m i ≡ 1 = member_digit 32 i m lt ne in
    let le : ones i m ≤ i = ones_le i m in
    rw
      (
        shifts-two_to 32 i lt,
        low_mask_lem i lt,
        count_and m (low (suc i)),
        and_low 32 (suc i) m (omega arith),
      )
      (omega arith)

-- The members of a mask get the places 0, 1, ... in the order of their bits, each below the number
-- of members.
pub bit_index-Ordered :
    (mask i j : ℕ)
    → mask < 2 ^ 32
    → i < j
    → j < 32
    → and_bits 32 mask (two_to i) ≢ 0
    → and_bits 32 mask (two_to j) ≢ 0
    → (bit_index mask (two_to i) slot_position < bit_index mask (two_to j) slot_position)
      × (bit_index mask (two_to j) slot_position < number_of_bits mask)
bit_index-Ordered mask i j bound before lt mi mj =
    let one_i : digit mask i ≡ 1 = member_digit 32 i mask (omega arith) mi in
    let one_j : digit mask j ≡ 1 = member_digit 32 j mask lt mj in
    rw
      (
        bit_index-ones mask i (omega arith) mi,
        bit_index-ones mask j lt mj,
        number_of_bits_lem mask bound,
      )
      (omega (arith, ones_lt j i mask before), omega (arith, ones_lt 32 j mask lt))

first_or_later : (m s : ℕ) → ((m % 2 ≡ 1) × (s ≡ 0)) ⊎ (m % 2 ≤ s)
first_or_later m s = omega arith

-- every place below the number of members is taken
place_of : (w m s : ℕ) → s < ones w m → (i : ℕ) × (i < w) × (digit m i ≡ 1) × (ones i m ≡ s)
place_of zero m s lt = absurd (omega arith)
place_of (suc w) m s lt = elim (first_or_later m s) [
  | inl (one, first) ↦ (zero, omega arith, one, sym first)
  | inr later ↦
      let (i, lt_i, one, places) = place_of w (m / 2) (s - m % 2) (omega arith) in
      (suc i, omega arith, one, omega arith)
]

pub bit_index-filled :
    (mask s : ℕ)
    → mask < 2 ^ 32
    → s < number_of_bits mask
    → (i : ℕ) × (i < 32)
      × (and_bits 32 mask (two_to i) ≢ 0)
      × (bit_index mask (two_to i) slot_position ≡ s)
bit_index-filled mask s bound lt =
    let inside : s < ones 32 mask = omega (arith, number_of_bits_lem mask bound) in
    let (i, lt_i, one, places) = place_of 32 mask s inside in
    let member : and_bits 32 mask (two_to i) ≢ 0 = digit_member 32 i mask lt_i one in
    (i, lt_i, member, bit_index-ones mask i lt_i member ∙ places)

-- what the other mode returns
later_bits :
    (m i : ℕ)
    → i < 31
    → number_of_bits (and_bits 32 m (high_mask (bit_position (two_to i)))) + ones (suc i) m
      ≡ ones 32 m
unfolding bit_position
later_bits m i lt =
    rw (shifts-two_to 32 i (omega arith), high_mask_lem i lt, count_and m (high 32 (suc i)))
      (and_high 32 (suc i) m (omega arith))

remaining_lem :
    (m n : ℕ)
    → bit_index m n slot_remaining
      ≡ sub32 (number_of_bits (and_bits 32 m (high_mask (bit_position n)))) 1
unfolding bit_index
remaining_lem m n = refl

pub bit_index-remaining :
    (mask i : ℕ)
    → mask < 2 ^ 32
    → i < 31
    → and_bits 32 mask (two_to i) ≢ 0
    → u32 (bit_index mask (two_to i) slot_remaining + 2) + bit_index mask (two_to i) slot_position
      ≡ number_of_bits mask
bit_index-remaining mask i bound lt ne =
    let one : digit mask i ≡ 1 = member_digit 32 i mask (omega arith) ne in
    let all_bits : ones 32 mask ≤ 32 = ones_le 32 mask in
    let before = ones_next i mask in
    let later = later_bits mask i lt in
    rw
      (
        bit_index-ones mask i (omega arith) ne,
        remaining_lem mask (two_to i),
        number_of_bits_lem mask bound,
      )
      (omega arith)
