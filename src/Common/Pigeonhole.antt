-- ===== src/Common/Pigeonhole.antt =====
-- Counting: a list that holds `n` different numbers has at least `n` members.
use Prim.Native.Nat.{ℕ, zero, suc, ◌≤◌, ◌<◌}
use mathlib.Core.Path.{◌≡◌}
use mathlib.Core.Logic.{◌≢◌}
use mathlib.Core.Bool.{Bool, true, false}
use mathlib.Core.List.{List, [], ◌∷◌}
use native.Mathlib.Omega.{arith}
use uwb_core.Common.Tests.{◌==◌}
use uwb_core.Common.Lists.{length, any}

abbrev pub contains : ℕ → List ℕ → Bool
contains a = any (λ x. a == x)

erase : ℕ → List ℕ → List ℕ
erase a [] = []
erase a (x ∷ xs) = elim (a == x) [ true ↦ xs | false ↦ x ∷ erase a xs ]

length-erase : (a : ℕ) (xs : List ℕ) → contains a xs ≡ true → suc (length (erase a xs)) ≡ length xs
unfolding erase
length-erase a [] h = absurd (ground arith)
length-erase a (x ∷ xs) h = ground (arith, length-erase a xs)

contains-erase :
    (a b : ℕ) (xs : List ℕ) → b ≢ a → contains b xs ≡ true → contains b (erase a xs) ≡ true
unfolding erase
contains-erase a b [] ne h = h
contains-erase a b (x ∷ xs) ne h = ground (arith, contains-erase a b xs ne)

pub pigeonhole :
    (f : ℕ → ℕ) (n : ℕ) (xs : List ℕ)
    → ((j k : ℕ) → j < k → k < n → f j ≢ f k)
    → ((k : ℕ) → k < n → contains (f k) xs ≡ true)
    → n ≤ length xs
pigeonhole f zero xs inj h = omega arith
pigeonhole f (suc n) xs inj h =
    let rest =
      pigeonhole f n (erase (f n) xs) (λ j k lt le. inj j k lt (omega arith))
        (λ k lt. contains-erase (f n) (f k) xs (inj k n lt (omega arith)) (h k (omega arith))) in
    omega (arith, rest, length-erase (f n) xs (h n (omega arith)))
