-- ===== src/Panmaster/Address/Fresh.antt =====
-- What `first_free_short_addr` promises of the address that it returns.
use uwb_core.Common.{
  ℕ, zero, suc, ◌+◌, ◌%◌, ◌<◌, ◌≡◌, ◌≢◌, ◌⊎◌, inl, inr, refl, Bool, true, false, List, arith,
  any-false, get_or, ◌==◌, if◌then◌else◌, length, Bool-cases, u16,
}
use uwb_core.Panmaster.Types.{NodeIdx, zero_entry}
use uwb_core.Panmaster.Address.{addr_used, candidate, try_addrs, first_free_short_addr}

candidate_lem :
    (euid i : ℕ) → (candidate euid i < 0x10000) × (candidate euid i % 4096 ≡ euid % 4096)
unfolding candidate
candidate_lem euid zero = omega arith
candidate_lem euid (suc i) = omega arith

-- An address that the loop returns is 0, or was tried and is not in use.
abbrev Tried : List NodeIdx → ℕ → ℕ → Type 0
Tried t euid a = (a ≡ 0) ⊎ ((addr_used t a ≡ false) × (a < 0x10000) × (a % 4096 ≡ euid % 4096))

round-Tried :
    (t : List NodeIdx) (euid i : ℕ)
    → Tried t euid (if addr_used t (candidate euid i) then 0 else candidate euid i)
round-Tried t euid i = elim (Bool-cases (addr_used t (candidate euid i))) [
  | inl e ↦ rw e (inl refl)
  | inr e ↦ rw e (let (small, low) = candidate_lem euid i in inr (e, small, low))
]

try_addrs-Tried :
    (t : List NodeIdx) (euid i k addr : ℕ)
    → Tried t euid addr
    → Tried t euid (try_addrs t euid i k addr)
unfolding try_addrs
try_addrs-Tried t euid i zero addr h = h
try_addrs-Tried t euid i (suc k) addr h =
    let now = round-Tried t euid i in if_Tried (_ == 0) (try_addrs-Tried t euid (i + 1) k _ now) now
  where
    if_Tried :
        (b : Bool) {x y : ℕ} → Tried t euid x → Tried t euid y → Tried t euid (if b then x else y)
    if_Tried true p q = p
    if_Tried false p q = q

first_round-Tried :
    (t : List NodeIdx) (euid k addr : ℕ) → 0 < k → Tried t euid (try_addrs t euid 0 k addr)
unfolding try_addrs
first_round-Tried t euid zero addr h = absurd (omega arith)
first_round-Tried t euid (suc k) addr h = try_addrs-Tried t euid 0 (suc k) 0 (inl refl)

-- On an index with an entry, the address is 0 or one that no entry has, and its low twelve bits are
-- those of the id.
pub first_free_short_addr_lem :
    (t : List NodeIdx) (euid : ℕ)
    → 0 < length t
    → let a = first_free_short_addr t euid in
      (a ≡ 0)
      ⊎ (((j : ℕ) → j < length t → (get_or t j zero_entry).addr ≢ a)
          × (a < 0x10000)
          × (a % 4096 ≡ euid % 4096))
unfolding first_free_short_addr addr_used
first_free_short_addr_lem t euid h = elim (first_round-Tried t euid (length t) (u16 euid) h) [
  | inl e ↦ inl e
  | inr (free, small, low) ↦
      inr ((λ j lt. let e = any-false _ t zero_entry j free lt in ground arith), small, low)
]
