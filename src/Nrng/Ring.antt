-- ===== src/Nrng/Ring.antt =====
-- The places of a request's responses in the ring of frames: none falls on another's.
use native.Mathlib.Nat.{div-add-mod'}
use uwb_core.Common.{
  ℕ, ◌+◌, ◌*◌, ◌/◌, ◌%◌, ◌^◌, ◌≤◌, ◌<◌, ◌≡◌, ◌≢◌, ◌⊎◌, refl, sym, ap, inl, inr, true, false, ◌==◌,
  arith, u16,
}
use uwb_core.RngSlots.{and_bits, bit_index, number_of_bits, slot_position}
use uwb_core.RngSlots.Count.{ones, ones_le}
use uwb_core.RngSlots.Places.{bit_index-ones}
use uwb_core.Nrng.Spacing.{two_to-pow, next_multiple, slots_apart}

pub same_number : (k l : ℕ) → (k == l) ≡ true → k ≡ l
same_number k l eq = ground arith

pub other_number : (k l : ℕ) → (k == l) ≡ false → k ≢ l
other_number k l eq = ground arith

less_or_greater : (k l : ℕ) → k ≢ l → (k < l) ⊎ (l < k)
less_or_greater k l ne = omega arith

less_same_greater : (k l : ℕ) → (k < l) ⊎ ((k ≡ l) ⊎ (l < k))
less_same_greater k l = omega arith

-- places in the ring of frames
rotate_apart : (n b p q : ℕ) → p < q → q < n → (b + p) % n ≢ (b + q) % n
rotate_apart n b p q lt inside = λ eq.
    let at_p = div-add-mod' (b + p) n in
    let at_q = div-add-mod' (b + q) n in
    elim (less_same_greater ((b + p) / n) ((b + q) / n)) [
      | inl less ↦ let more = next_multiple ((b + p) / n) ((b + q) / n) n less in omega arith
      | inr (inl same) ↦ let product = ap (λ x. x * n) same in omega arith
      | inr (inr greater) ↦
          let more = next_multiple ((b + q) / n) ((b + p) / n) n greater in omega arith
    ]

-- the slot of a node of the request
abbrev pub place : ℕ → ℕ → ℕ
place mask i = u16 (bit_index mask (2 ^ i) slot_position)

pub place_apart :
    (mask n b i j : ℕ)
    → mask < 2 ^ 32
    → number_of_bits mask ≤ n
    → i < 32
    → j < 32
    → i ≢ j
    → and_bits 32 mask (2 ^ i) ≢ 0
    → and_bits 32 mask (2 ^ j) ≢ 0
    → (b + place mask i) % n ≢ (b + place mask j) % n
place_apart mask n b i j bound room lt_i lt_j ne mi mj = elim (less_or_greater i j ne) [
  | inl less ↦
      let (before, inside, _) = slots_apart mask i j _ _ bound less lt_j (mi, refl) (mj, refl) in
      rotate_apart n b (place mask i) (place mask j) before (omega arith)
  | inr greater ↦
      let (before, inside, _) = slots_apart mask j i _ _ bound greater lt_i (mj, refl) (mi, refl) in
      λ eq. rotate_apart n b (place mask j) (place mask i) before (omega arith) (sym eq)
]

pub place_lt : (mask i : ℕ) → i < 32 → and_bits 32 mask (2 ^ i) ≢ 0 → place mask i < 32
place_lt mask i lt member =
    let power = two_to-pow i lt in
    let few : ones i mask ≤ i = ones_le i mask in
    rw (power, bit_index-ones mask i lt (rw power at member)) (omega arith)
