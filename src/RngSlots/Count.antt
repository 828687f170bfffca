-- ===== src/RngSlots/Count.antt =====
-- `NumberOfBits` counts the binary digits that are one.
use uwb_core.Common.{
  ℕ, zero, suc, ◌+◌, ◌-◌, ◌*◌, ◌/◌, ◌%◌, ◌^◌, ◌≤◌, ◌<◌, ◌≡◌, ◌⊎◌, refl, sym, ap, ◌∙◌, inl, inr,
  arith,
}
use uwb_core.RngSlots.{both_bits, and_bits, count_bits, number_of_bits}

-- the digits that are one among the lowest `w`, from the lowest on
abbrev pub ones : ℕ → ℕ → ℕ
ones zero n = 0
ones (suc w) n = n % 2 + ones w (n / 2)

abbrev pub two_to : ℕ → ℕ
two_to zero = 1
two_to (suc w) = 2 * two_to w

pub ones_le : (w n : ℕ) → ones w n ≤ w
ones_le zero n = omega arith
ones_le (suc w) n = omega (arith, ones_le w (n / 2))

and_bits_self : (w n : ℕ) → n < two_to w → and_bits w n n ≡ n
unfolding and_bits
and_bits_self zero n lt = omega arith
and_bits_self (suc w) n lt = ground (arith, and_bits_self w (n / 2) (omega arith))

-- one digit of `a & b`, the lowest digits and the halves given
pub and_bits_step :
    (w a b x y p q : ℕ)
    → a % 2 ≡ x
    → b % 2 ≡ y
    → a / 2 ≡ p
    → b / 2 ≡ q
    → and_bits (suc w) a b ≡ both_bits x y + 2 * and_bits w p q
unfolding and_bits
and_bits_step w a b x y p q eqx eqy eqp eqq = rw (eqx, eqy, eqp, eqq) refl

-- `n & (n-1)` without the lowest digit
clear_even : (w m : ℕ) → 0 < m → and_bits (suc w) (2 * m) (2 * m - 1) ≡ 2 * and_bits w m (m - 1)
clear_even w m pos =
    and_bits_step w (2 * m) (2 * m - 1) 0 1 m (m - 1) (omega arith) (omega arith) (omega arith)
      (omega arith)
    ∙ omega arith

clear_odd : (w m : ℕ) → m < two_to w → and_bits (suc w) (2 * m + 1) (2 * m + 1 - 1) ≡ 2 * m
clear_odd w m lt =
    and_bits_step w (2 * m + 1) (2 * m + 1 - 1) 1 0 m m (omega arith) (omega arith) (omega arith)
      (omega arith)
    ∙ omega (arith, and_bits_self w m lt)

-- one round of the loop
count_zero : (w f : ℕ) → count_bits w f 0 ≡ 0
unfolding count_bits
count_zero w zero = refl
count_zero w (suc f) = refl

count_bits_round :
    (w f n : ℕ) → 0 < n → count_bits w (suc f) n ≡ suc (count_bits w f (and_bits w n (n - 1)))
unfolding count_bits
count_bits_round w f n pos = ground arith

-- the loop on an even number is the loop on its half
count_bits_even : (w f m : ℕ) → count_bits (suc w) f (2 * m) ≡ count_bits w f m
unfolding count_bits
count_bits_even w zero m = refl
count_bits_even w (suc f) zero = count_zero (suc w) (suc f) ∙ sym (count_zero w (suc f))
count_bits_even w (suc f) (suc m) =
    count_bits_round (suc w) f (2 * suc m) (omega arith)
    ∙ ap suc (
        rw (clear_even w (suc m) (omega arith))
          (count_bits_even w f (and_bits w (suc m) (suc m - 1))))
    ∙ sym (count_bits_round w f (suc m) (omega arith))

count_bits_odd :
    (w f m : ℕ) → m < two_to w → count_bits (suc w) (suc f) (2 * m + 1) ≡ suc (count_bits w f m)
count_bits_odd w f m lt =
    count_bits_round (suc w) f (2 * m + 1) (omega arith)
    ∙ ap suc (rw (clear_odd w m lt) (count_bits_even w f m))

parity : (n : ℕ) → (n ≡ 2 * (n / 2)) ⊎ (n ≡ 2 * (n / 2) + 1)
parity n = ground arith

-- the loop finds them all, with fuel for as many steps
count_bits-ones : (w f n : ℕ) → n < two_to w → ones w n ≤ f → count_bits w f n ≡ ones w n
count_bits-ones zero f n lt le =
    let none_left : n ≡ 0 = omega arith in rw none_left (count_zero zero f)
count_bits-ones (suc w) f n lt le = elim (parity n) [
  | inl even ↦
      ap (count_bits (suc w) f) even
      ∙ count_bits_even w f (n / 2)
      ∙ count_bits-ones w f (n / 2) (omega arith) (omega arith)
      ∙ omega arith
  | inr odd ↦
      let rounds : f ≡ suc (f - 1) = omega arith in
      ap (λ x. count_bits (suc w) x n) rounds
      ∙ ap (count_bits (suc w) (suc (f - 1))) odd
      ∙ count_bits_odd w (f - 1) (n / 2) (omega arith)
      ∙ ap suc (count_bits-ones w (f - 1) (n / 2) (omega arith) (omega arith))
      ∙ omega arith
]

pub number_of_bits_lem : (n : ℕ) → n < 2 ^ 32 → number_of_bits n ≡ ones 32 n
unfolding number_of_bits
number_of_bits_lem n lt = count_bits-ones 32 32 n lt (ones_le 32 n)
