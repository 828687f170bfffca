-- ===== src/Nrng/Ranges/Mask.antt =====
-- The mask that `nrng_get_ranges` returns, bit for bit.
use uwb_core.Common.{
  ℕ, zero, suc, ◌+◌, ◌/◌, ◌≤◌, ◌<◌, ◌≡◌, ◌⊎◌, refl, ◌∙◌, inl, inr, Bool, true, false, if◌then◌else◌,
  Bool-cases, arith,
}
use uwb_core.RngSlots.Count.{two_to}
use uwb_core.RngSlots.Rank.{digit}
use uwb_core.Nrng.{Nrng}
use uwb_core.Nrng.Spacing.{two_to-pow}
use uwb_core.Nrng.Ranges.{answered, valid_mask}

-- a clear bit that is set
digit_under : (n m i : ℕ) → i < n → digit (m + two_to n) i ≡ digit m i
digit_under zero m i lt = omega arith
digit_under (suc n) m zero lt = omega arith
digit_under (suc n) m (suc i) lt =
    let half : (m + two_to (suc n)) / 2 ≡ m / 2 + two_to n = omega arith in
    rw half (digit_under n (m / 2) i (omega arith))

digit_top : (n m : ℕ) → m < two_to n → digit (m + two_to n) n ≡ 1
digit_top zero m lt = omega arith
digit_top (suc n) m lt =
    let half : (m + two_to (suc n)) / 2 ≡ m / 2 + two_to n = omega arith in
    rw half (digit_top n (m / 2) (omega arith))

digit_above : (n m : ℕ) → m < two_to n → digit m n ≡ 0
digit_above zero m lt = omega arith
digit_above (suc n) m lt = digit_above n (m / 2) (omega arith)

abbrev pub bit_of : Bool → ℕ
bit_of b = if b then 1 else 0

with_bit :
    (nrng : Nrng)
    → (base n : ℕ) → n < 32
    → answered nrng base n ≡ true
    → valid_mask nrng base (suc n) ≡ valid_mask nrng base n + two_to n
unfolding valid_mask
with_bit nrng base n lt eq = rw (eq, two_to-pow n lt) refl

without_bit :
    (nrng : Nrng)
    → (base n : ℕ) → answered nrng base n ≡ false
    → valid_mask nrng base (suc n) ≡ valid_mask nrng base n
unfolding valid_mask
without_bit nrng base n eq = rw eq refl

valid_mask_zero : (nrng : Nrng) → (base : ℕ) → valid_mask nrng base 0 ≡ 0
unfolding valid_mask
valid_mask_zero nrng base = refl

valid_mask_lt : (nrng : Nrng) → (base n : ℕ) → n ≤ 32 → valid_mask nrng base n < two_to n
valid_mask_lt nrng base zero le = omega (arith, valid_mask_zero nrng base)
valid_mask_lt nrng base (suc n) le =
    let before = valid_mask_lt nrng base n (omega arith) in
    elim (Bool-cases (answered nrng base n)) [
      | inl set ↦ omega (arith, with_bit nrng base n (omega arith) set)
      | inr clear ↦ omega (arith, without_bit nrng base n clear)
    ]

last_or_before : {i n : ℕ} → i < suc n → (i ≡ n) ⊎ (i < n)
last_or_before lt = omega arith

pub digit-valid_mask :
    (nrng : Nrng)
    → (base n i : ℕ) → n ≤ 32
    → i < n
    → digit (valid_mask nrng base n) i ≡ bit_of (answered nrng base i)
digit-valid_mask nrng base zero i le lt = absurd (omega arith)
digit-valid_mask nrng base (suc n) i le lt =
    let below = valid_mask_lt nrng base n (omega arith) in
    elim (Bool-cases (answered nrng base n)) [
      | inl set ↦ rw (with_bit nrng base n (omega arith) set) (elim (last_or_before lt) [
        | inl last ↦ rw (last, set) (digit_top n (valid_mask nrng base n) below)
        | inr before ↦
            digit_under n (valid_mask nrng base n) i before
            ∙ digit-valid_mask nrng base n i (omega arith) before
      ])
      | inr clear ↦ rw (without_bit nrng base n clear) (elim (last_or_before lt) [
        | inl last ↦ rw (last, clear) (digit_above n (valid_mask nrng base n) below)
        | inr before ↦ digit-valid_mask nrng base n i (omega arith) before
      ])
    ]
