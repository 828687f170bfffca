-- ===== src/RngSlots/Rank.antt =====
-- The single bits, shifts and masks that `BitIndex` works with.
use uwb_core.Common.{
  ℕ, zero, suc, ◌+◌, ◌*◌, ◌/◌, ◌%◌, ◌≤◌, ◌<◌, ◌≡◌, ◌≢◌, ◌⊎◌, refl, ap, ◌∙◌, inl, inr, Bool, true,
  ◌&&◌, ◌==◌, arith,
}
use uwb_core.RngSlots.{both_bits, and_bits, shifts, number_of_bits, low_mask, high_mask}
use uwb_core.RngSlots.Count.{ones, two_to, and_bits_step, number_of_bits_lem}

-- digit `i` of a mask
abbrev pub digit : ℕ → ℕ → ℕ
digit m zero = m % 2
digit m (suc i) = digit (m / 2) i

-- `k` digits that are one, and `w - k` of them over `k` zeros
abbrev pub low : ℕ → ℕ
low zero = 0
low (suc k) = 2 * low k + 1

abbrev pub high : ℕ → ℕ → ℕ
high zero k = 0
high (suc w) zero = 2 * high w zero + 1
high (suc w) (suc k) = 2 * high w k

and_bits_lt : (w a b : ℕ) → and_bits w a b < two_to w
unfolding and_bits
and_bits_lt zero a b = omega arith
and_bits_lt (suc w) a b = ground (arith, and_bits_lt w (a / 2) (b / 2))

and_bits_zero : (w a : ℕ) → and_bits w a 0 ≡ 0
unfolding and_bits
and_bits_zero zero a = refl
and_bits_zero (suc w) a = ground (arith, and_bits_zero w (a / 2))

ones_zero : (w : ℕ) → ones w 0 ≡ 0
ones_zero zero = refl
ones_zero (suc w) = omega (arith, ones_zero w)

-- the digits of a number in two parts
ones_parts : (w x y n : ℕ) → n ≡ x + 2 * y → x < 2 → ones (suc w) n ≡ x + ones w y
ones_parts w x y n eq lt =
    let digit_eq : n % 2 ≡ x = omega arith in
    let half_eq : n / 2 ≡ y = omega arith in rw (digit_eq, half_eq) refl

digit_lt : (m i : ℕ) → digit m i < 2
digit_lt m zero = omega arith
digit_lt m (suc i) = digit_lt (m / 2) i

pub ones_next : (i m : ℕ) → ones (suc i) m ≡ ones i m + digit m i
ones_next zero m = omega arith
ones_next (suc i) m = omega (arith, ones_next i (m / 2))

same_or_before : {i j : ℕ} → i < suc j → (i ≡ j) ⊎ (i < j)
same_or_before lt = omega arith

pub ones_lt : (j i m : ℕ) → i < j → ones i m + digit m i ≤ ones j m
ones_lt zero i m lt = omega arith
ones_lt (suc j) i m lt = elim (same_or_before lt) [
  | inl same ↦ rw same (omega (arith, ones_next j m))
  | inr before ↦ omega (arith, ones_next j m, ones_lt j i m (omega arith))
]

both_one : (x : ℕ) → x < 2 → both_bits x 1 ≡ x
both_one x lt = ground arith

both_zero : (x : ℕ) → both_bits x 0 ≡ 0
both_zero x = ground arith

-- the masks of `BitIndex` at work
pub and_low : (w k m : ℕ) → k ≤ w → ones w (and_bits w m (low k)) ≡ ones k m
and_low w zero m le = rw (and_bits_zero w m) (ones_zero w)
and_low zero (suc k) m le = omega arith
and_low (suc w) (suc k) m le =
    ones_parts w (m % 2) (and_bits w (m / 2) (low k)) (and_bits (suc w) m (low (suc k)))
      (and_bits_step w m (low (suc k)) (m % 2) 1 (m / 2) (low k) refl (omega arith) refl
          (omega arith)
        ∙ omega (arith, both_one (m % 2) (omega arith)))
      (omega arith)
    ∙ omega (arith, and_low w k (m / 2) (omega arith))

pub and_high : (w k m : ℕ) → k ≤ w → ones w (and_bits w m (high w k)) + ones k m ≡ ones w m
and_high zero zero m le = omega arith
and_high zero (suc k) m le = omega arith
and_high (suc w) zero m le =
    let parts =
      ones_parts w (m % 2) (and_bits w (m / 2) (high w zero))
        (and_bits (suc w) m (high (suc w) zero))
        (and_bits_step w m (high (suc w) zero) (m % 2) 1 (m / 2) (high w zero) refl (omega arith)
            refl (omega arith)
          ∙ omega (arith, both_one (m % 2) (omega arith)))
        (omega arith) in
    omega (arith, parts, and_high w zero (m / 2) (omega arith))
and_high (suc w) (suc k) m le =
    let parts =
      ones_parts w 0 (and_bits w (m / 2) (high w k)) (and_bits (suc w) m (high (suc w) (suc k)))
        (and_bits_step w m (high (suc w) (suc k)) (m % 2) 0 (m / 2) (high w k) refl (omega arith)
            refl (omega arith)
          ∙ omega (arith, both_zero (m % 2)))
        (omega arith) in
    omega (arith, parts, and_high w k (m / 2) (omega arith))

-- `BitPosition` of one bit
two_to_pos : (i : ℕ) → 0 < two_to i
two_to_pos zero = omega arith
two_to_pos (suc i) = omega (arith, two_to_pos i)

shifts_zero : (f : ℕ) → shifts f 0 ≡ 0
unfolding shifts
shifts_zero zero = refl
shifts_zero (suc f) = refl

shifts_round : (f n m : ℕ) → n / 2 ≡ m → 0 < n → shifts (suc f) n ≡ suc (shifts f m)
unfolding shifts
shifts_round f n m half pos = rw half (ground arith)

pub shifts-two_to : (f i : ℕ) → i < f → shifts f (two_to i) ≡ suc i
shifts-two_to zero i lt = omega arith
shifts-two_to (suc f) zero lt = shifts_round f 1 0 refl (omega arith) ∙ ap suc (shifts_zero f)
shifts-two_to (suc f) (suc i) lt =
    shifts_round f (two_to (suc i)) (two_to i) (omega arith) (two_to_pos (suc i))
    ∙ ap suc (shifts-two_to f i (omega arith))

-- a member of a mask: `n & nslots_mask`
both_pos : (x : ℕ) → x < 2 → both_bits x 1 ≢ 0 → x ≡ 1
both_pos x lt ne = ground arith

pub member_digit : (w i m : ℕ) → i < w → and_bits w m (two_to i) ≢ 0 → digit m i ≡ 1
member_digit zero i m lt ne = omega arith
member_digit (suc w) zero m lt ne = both_pos (m % 2) (omega arith) (λ eq. ne (
    and_bits_step w m 1 (m % 2) 1 (m / 2) 0 refl refl refl refl
    ∙ omega (arith, eq, and_bits_zero w (m / 2))))
member_digit (suc w) (suc i) m lt ne = member_digit w i (m / 2) (omega arith) (λ eq. ne (
    and_bits_step w m (two_to (suc i)) (m % 2) 0 (m / 2) (two_to i) refl (omega arith) refl
      (omega arith)
    ∙ omega (arith, eq, both_zero (m % 2))))

pub digit_member : (w i m : ℕ) → i < w → digit m i ≡ 1 → and_bits w m (two_to i) ≢ 0
digit_member zero i m lt one = omega arith
digit_member (suc w) zero m lt one =
    λ eq. let step = and_bits_step w m 1 1 1 (m / 2) 0 one refl refl refl in omega arith
digit_member (suc w) (suc i) m lt one = λ eq.
    let step =
      and_bits_step w m (two_to (suc i)) (m % 2) 0 (m / 2) (two_to i) refl (omega arith) refl
        (omega arith) in
    digit_member w i (m / 2) (omega arith) one (omega (arith, both_zero (m % 2)))

-- the masks that the code computes
abbrev pub agree : (ℕ → ℕ) → (ℕ → ℕ) → ℕ → Bool
agree f g zero = true
agree f g (suc n) = (f n == g n) && agree f g n

pub agree_lem : (f g : ℕ → ℕ) → (n i : ℕ) → agree f g n ≡ true → i < n → f i ≡ g i
agree_lem f g zero i eq lt = omega arith
agree_lem f g (suc n) i eq lt = elim (same_or_before lt) [
  | inl same ↦ rw same (ground arith)
  | inr before ↦ agree_lem f g n i (ground arith) before
]

pub low_mask_lem : (i : ℕ) → i < 32 → low_mask (suc i) ≡ low (suc i)
low_mask_lem i lt = agree_lem (λ n. low_mask (suc n)) (λ n. low (suc n)) 32 i refl lt

pub high_mask_lem : (i : ℕ) → i < 31 → high_mask (suc i) ≡ high 32 (suc i)
high_mask_lem i lt = agree_lem (λ n. high_mask (suc n)) (λ n. high 32 (suc n)) 31 i refl lt

pub count_and : (m b : ℕ) → number_of_bits (and_bits 32 m b) ≡ ones 32 (and_bits 32 m b)
count_and m b = number_of_bits_lem (and_bits 32 m b) (and_bits_lt 32 m b)
