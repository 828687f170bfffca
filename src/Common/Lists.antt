-- ===== src/Common/Lists.antt =====
-- C arrays as lists: reads, writes and the search loops over them.
use Prim.Native.Nat.{ℕ, zero, suc, ◌<◌}
use mathlib.Core.Path.{◌≡◌, refl, ap}
use mathlib.Core.Logic.{◌≢◌, inl, inr}
use mathlib.Core.Bool.{Bool, true, false, ◌||◌}
use mathlib.Core.List.{List, [], ◌∷◌, map}
use mathlib.Core.Option.{Option, none, some}
use native.Mathlib.Omega.{arith}
use uwb_core.Common.Tests.{Bool-cases}

module _ {ℓ} {A : Type ℓ} where
  abbrev pub length : List A → ℕ
  length [] = 0
  length (x ∷ xs) = suc (length xs)

  abbrev pub get_or : List A → ℕ → A → A
  get_or [] i d = d
  get_or (x ∷ xs) zero d = x
  get_or (x ∷ xs) (suc i) d = get_or xs i d

  -- A write out of bounds changes nothing.
  abbrev pub set : List A → ℕ → A → List A
  set [] i v = []
  set (x ∷ xs) zero v = v ∷ xs
  set (x ∷ xs) (suc i) v = x ∷ set xs i v

  abbrev pub replicate : ℕ → A → List A
  replicate zero a = []
  replicate (suc n) a = a ∷ replicate n a

  abbrev pub take : ℕ → List A → List A
  take zero xs = []
  take (suc n) [] = []
  take (suc n) (x ∷ xs) = x ∷ take n xs

  abbrev pub drop : ℕ → List A → List A
  drop zero xs = xs
  drop (suc n) [] = []
  drop (suc n) (x ∷ xs) = drop n xs

  -- `for (…) if (p(a[i])) return true; return false;`
  abbrev pub any : (A → Bool) → List A → Bool
  any p [] = false
  any p (x ∷ xs) = p x || any p xs

  -- `for (i = 0; …; i++) if (p(a[i])) break;`
  unfoldable pub find_idx? : (A → Bool) → List A → Option ℕ
  find_idx? p [] = none
  find_idx? p (x ∷ xs) = elim (p x) [
    | true ↦ some 0
    | false ↦ elim (find_idx? p xs) [ none ↦ none | some i ↦ some (suc i) ]
  ]

  pub length-set : (xs : List A) (i : ℕ) (v : A) → length (set xs i v) ≡ length xs
  length-set [] i v = refl
  length-set (x ∷ xs) zero v = refl
  length-set (x ∷ xs) (suc i) v = ap suc (length-set xs i v)

  pub get_or-set_self :
      (xs : List A) (i : ℕ) (v d : A) → i < length xs → get_or (set xs i v) i d ≡ v
  get_or-set_self [] i v d h = absurd (omega arith)
  get_or-set_self (x ∷ xs) zero v d h = refl
  get_or-set_self (x ∷ xs) (suc i) v d h = get_or-set_self xs i v d (omega arith)

  pub get_or-set_ne :
      (xs : List A) (i j : ℕ) (v d : A) → i ≢ j → get_or (set xs i v) j d ≡ get_or xs j d
  get_or-set_ne [] i j v d h = refl
  get_or-set_ne (x ∷ xs) zero zero v d h = absurd (h refl)
  get_or-set_ne (x ∷ xs) zero (suc j) v d h = refl
  get_or-set_ne (x ∷ xs) (suc i) zero v d h = refl
  get_or-set_ne (x ∷ xs) (suc i) (suc j) v d h = get_or-set_ne xs i j v d (λ e. h (ap suc e))

  pub set-set : (xs : List A) (i : ℕ) (v w : A) → set (set xs i v) i w ≡ set xs i w
  set-set [] i v w = refl
  set-set (x ∷ xs) zero v w = refl
  set-set (x ∷ xs) (suc i) v w = ap (λ r. x ∷ r) (set-set xs i v w)

  pub set-get_or : (xs : List A) (i : ℕ) (d : A) → set xs i (get_or xs i d) ≡ xs
  set-get_or [] i d = refl
  set-get_or (x ∷ xs) zero d = refl
  set-get_or (x ∷ xs) (suc i) d = ap (λ r. x ∷ r) (set-get_or xs i d)

  -- Where the search stops, the test holds, and it holds nowhere before.
  pub find_idx?-some :
      (p : A → Bool) (xs : List A) (d : A) {i : ℕ}
      → find_idx? p xs ≡ some i
      → (i < length xs) × (p (get_or xs i d) ≡ true)
  unfolding find_idx?
  find_idx?-some p [] d h = absurd (ground arith)
  find_idx?-some p (x ∷ xs) d {i = zero} h = ground arith
  find_idx?-some p (x ∷ xs) d {i = suc i} h = ground (arith, find_idx?-some p xs d {i = i})

  pub find_idx?-none :
      (p : A → Bool) (xs : List A) (d : A) (i : ℕ)
      → find_idx? p xs ≡ none
      → i < length xs
      → p (get_or xs i d) ≡ false
  unfolding find_idx?
  find_idx?-none p [] d i h lt = absurd (omega arith)
  find_idx?-none p (x ∷ xs) d zero h lt = ground arith
  find_idx?-none p (x ∷ xs) d (suc i) h lt = ground (arith, find_idx?-none p xs d i)

  -- A loop that finds nothing: the test fails everywhere.
  pub any-false :
      (p : A → Bool) (xs : List A) (d : A) (i : ℕ)
      → any p xs ≡ false
      → i < length xs
      → p (get_or xs i d) ≡ false
  any-false p [] d i h lt = absurd (omega arith)
  any-false p (x ∷ xs) d zero h lt = ground arith
  any-false p (x ∷ xs) d (suc i) h lt = ground (arith, any-false p xs d i)

  -- A loop that stops stops somewhere.
  pub any-true :
      (p : A → Bool) (xs : List A) (d : A)
      → any p xs ≡ true
      → (i : ℕ) × (i < length xs) × (p (get_or xs i d) ≡ true)
  any-true p [] d h = absurd (ground arith)
  any-true p (x ∷ xs) d h = elim (Bool-cases (p x)) [
    | inl e ↦ (0, omega arith, e)
    | inr e ↦ let (i, lt, at) = any-true p xs d (rw e at h) in (suc i, omega arith, at)
  ]

module _ {ℓ κ} {A : Type ℓ} {B : Type κ} where
  pub length-map : (f : A → B) (xs : List A) → length (map f xs) ≡ length xs
  length-map f [] = refl
  length-map f (x ∷ xs) = ap suc (length-map f xs)
