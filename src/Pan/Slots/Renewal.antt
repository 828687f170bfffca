-- ===== src/Pan/Slots/Renewal.antt =====
-- A master resets the network at its start.
use uwb_core.Common.{ℕ, zero, suc, ◌+◌, ◌≡◌, refl, ap, ◌∙◌, List, [], ◌∷◌, ◌++◌, arith, replicate}
use uwb_core.Pan.Slots.{SlotAction, sends_reset, listens_for, long_timeout, master_slot}

-- What a master does in its next slots, with the count of resets at the first.
unfoldable pub master_slots : ℕ → ℕ → ℕ → ℕ → List SlotAction
unfolding master_slot
master_slots period nslots zero cycles = []
master_slots period nslots (suc n) cycles =
    let (a, cycles') = master_slot period nslots cycles in a ∷ master_slots period nslots n cycles'

listening :
    (period nslots n : ℕ)
    → master_slots period nslots n 8 ≡ replicate n (listens_for (long_timeout period nslots))
unfolding master_slots master_slot
listening period nslots zero = refl
listening period nslots (suc n) =
    ap (λ (rest : List SlotAction). listens_for (long_timeout period nslots) ∷ rest)
      (listening period nslots n)

-- A master that starts sends a reset in its first eight slots and listens in all later ones.
pub master_slots_lem :
    (period nslots n : ℕ)
    → master_slots period nslots (8 + n) 0
      ≡ replicate 8 sends_reset ++ replicate n (listens_for (long_timeout period nslots))
unfolding master_slots master_slot
master_slots_lem period nslots n =
    ap (λ (k : ℕ). master_slots period nslots k 0) eight
    ∙ ap (λ (rest : List SlotAction). replicate 8 sends_reset ++ rest) (listening period nslots n)
  where
    eight : 8 + n ≡ suc (suc (suc (suc (suc (suc (suc (suc n)))))))
    eight = omega arith
