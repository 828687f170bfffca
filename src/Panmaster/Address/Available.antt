-- ===== src/Panmaster/Address/Available.antt =====
-- When `first_free_short_addr` does find an address.
use uwb_core.Common.{
  ℕ, zero, suc, ◌+◌, ◌/◌, ◌%◌, ◌≤◌, ◌<◌, ◌≡◌, ◌≢◌, ◌⊎◌, inl, inr, refl, true, List, [], ◌∷◌, map,
  arith, ◌==◌, if◌then◌else◌, length, length-map, get_or, contains, pigeonhole, u16, sym, ◌∙◌,
}
use native.Mathlib.Decide.{ℕ_discrete}
use uwb_core.Panmaster.Types.{NodeIdx, zero_entry}
use uwb_core.Panmaster.Address.{addr_used, candidate, try_addrs, first_free_short_addr}

-- The loop returns 0 only if each address that it tries is in use or 0.
try_addrs-eq_zero :
    (t : List NodeIdx) (euid k i addr j : ℕ)
    → try_addrs t euid i k addr ≡ 0
    → i ≤ j
    → j < i + k
    → (addr_used t (candidate euid j) ≡ true) ⊎ (candidate euid j ≡ 0)
unfolding try_addrs
try_addrs-eq_zero t euid zero i addr j e le lt = absurd (omega arith)
try_addrs-eq_zero t euid (suc k) i addr j e le lt = elim (ℕ_discrete i j) [
  | yes same ↦ ground (arith, same)
  | no other ↦ ground (
    arith,
    try_addrs-eq_zero t euid k (i + 1) 0 j,
    try_addrs-eq_zero t euid k (i + 1) (candidate euid i) j,
  )
]

addrs : List NodeIdx → List ℕ
addrs = map (λ n. n.addr)

length-addrs : (t : List NodeIdx) → length (addrs t) ≡ length t
unfolding addrs
length-addrs t = length-map (λ n. n.addr) t

contains-addrs : (a : ℕ) (t : List NodeIdx) → addr_used t a ≡ contains a (addrs t)
unfolding addr_used addrs
contains-addrs a [] = refl
contains-addrs a (n ∷ t) = rw (← contains-addrs a t, addr_used)

contains-get :
    (t : List NodeIdx) (j : ℕ)
    → j < length t
    → contains (get_or t j zero_entry).addr (addrs t) ≡ true
unfolding addrs
contains-get [] j h = absurd (omega arith)
contains-get (n ∷ t) zero h = ground arith
contains-get (n ∷ t) (suc j) h = ground (arith, contains-get t j)

-- The ids whose candidates differ: the top nibble of the 16-bit address is 0 or too large to be a
-- round of the loop, and the candidates are neither 0 nor 0xffff.
pub record IsSpread (euid rounds : ℕ) : Type 0 where
  pub few : rounds ≤ 16
  pub nibble : ((euid % 65536) / 4096 ≡ 0) ⊎ (rounds ≤ (euid % 65536) / 4096)
  pub low_zero : euid % 4096 ≢ 0
  pub low_full : euid % 4096 ≢ 4095

module _ (euid rounds : ℕ) (v : IsSpread euid rounds) where
  candidate-injective : (j k : ℕ) → j < k → k < rounds → candidate euid j ≢ candidate euid k
  unfolding candidate
  candidate-injective zero zero lt le = absurd (omega arith)
  candidate-injective zero (suc k) lt le = elim v.nibble [
    | inl z ↦ omega (arith, v.few)
    | inr big ↦ omega (arith, v.few)
  ]
  candidate-injective (suc j) zero lt le = absurd (omega arith)
  candidate-injective (suc j) (suc k) lt le = omega (arith, v.few)

  candidate_range : (j : ℕ) → (candidate euid j ≢ 0) × (candidate euid j ≢ 0xffff)
  unfolding candidate
  candidate_range zero = omega (arith, v.low_zero, v.low_full)
  candidate_range (suc j) = omega (arith, v.low_zero, v.low_full)

-- the candidates, and 0xffff after them
abbrev tried : ℕ → ℕ → ℕ → ℕ
tried euid rounds k = if k == rounds then 0xffff else candidate euid k

-- A new node gets an address that is not 0 if some entry of the index is free, the index has at most
-- 16 entries, the top nibble of the 16-bit id is 0 or not below the number of entries, and its low 12
-- bits are neither 0 nor 0xfff.
pub first_free_short_addr-ne_zero :
    (t : List NodeIdx) (euid j : ℕ)
    → IsSpread euid (length t)
    → j < length t
    → (get_or t j zero_entry).addr ≡ 0xffff
    → first_free_short_addr t euid ≢ 0
unfolding first_free_short_addr
first_free_short_addr-ne_zero t euid j v lt free none_left =
    absurd (omega (arith, count, length-addrs t))
  where
    used : (k : ℕ) → k < length t → contains (candidate euid k) (addrs t) ≡ true
    used k le =
        elim (try_addrs-eq_zero t euid (length t) 0 (u16 euid) k none_left (omega arith)
          (omega arith)) [
            | inl u ↦ sym (contains-addrs (candidate euid k) t) ∙ u
            | inr z ↦ absurd ((candidate_range euid (length t) v k).0 z)
          ]

    all_used : (k : ℕ) → k < suc (length t) → contains (tried euid (length t) k) (addrs t) ≡ true
    all_used k le = elim (ℕ_discrete k (length t)) [
      | yes e ↦ ground (arith, contains-get t j)
      | no ne ↦ ground (arith, used k (omega arith))
    ]

    differ :
        (i k : ℕ) → i < k → k < suc (length t) → tried euid (length t) i ≢ tried euid (length t) k
    differ i k lt' le =
        ground (
          arith,
          candidate-injective euid (length t) v i k lt',
          candidate_range euid (length t) v i,
        )

    count : suc (length t) ≤ length (addrs t)
    count = pigeonhole (tried euid (length t)) (suc (length t)) (addrs t) differ all_used
