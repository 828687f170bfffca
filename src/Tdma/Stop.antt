-- ===== src/Tdma/Stop.antt =====
-- A stopped instance is at rest.
use uwb_core.Common.{
  ℕ, zero, suc, ◌+◌, ◌<◌, ◌≤◌, ◌≡◌, ◌≢◌, refl, sym, ap, ◌∙◌, false, List, [], ◌∷◌, Option, none,
  length, set, get_or-set_ne, arith, inl, inr, Bool-cases, if-both,
}
use native.Mathlib.Decide.{ℕ_discrete, dec_lt}
use uwb_core.Tdma.{Slot, slot, Tdma, no_slot, is_assigned, assigned, release_slot, stop_from, stop}
use uwb_core.Tdma.Schedule.{NoStray}
use uwb_core.Tdma.Stray.{stop_from-NoStray}

emptied : (ss : List (Option Slot)) (i : ℕ) → assigned (set ss i none) i ≡ false
unfolding is_assigned
emptied [] i = refl
emptied (s ∷ ss) zero = refl
emptied (s ∷ ss) (suc i) = emptied ss i

beyond : (ss : List (Option Slot)) (i : ℕ) → length ss ≤ i → assigned ss i ≡ false
unfolding is_assigned
beyond [] i le = refl
beyond (s ∷ ss) zero le = absurd (omega arith)
beyond (s ∷ ss) (suc i) le = beyond ss i (omega arith)

-- A release takes its slot away, and gives none.
release_slot-same : (i : ℕ) (t : Tdma) → assigned (release_slot i t).slots i ≡ false
unfolding release_slot
release_slot-same i t = elim (Bool-cases (assigned t.slots i)) [
  | inl on ↦ rw (on, release_slot) (emptied t.slots i)
  | inr off ↦ rw (off, release_slot) off
]

release_slot-off :
    (i j : ℕ) (t : Tdma) → assigned t.slots j ≡ false → assigned (release_slot i t).slots j ≡ false
unfolding release_slot
release_slot-off i j t off = elim (ℕ_discrete i j) [
  | yes same ↦ rw (sym same) (release_slot-same i t)
  | no ne ↦ other ne
]
  where
    other : i ≢ j → assigned (release_slot i t).slots j ≡ false
    other ne =
        if-both (λ (u : Tdma). assigned u.slots j ≡ false) (assigned t.slots i) _ _
          (ap is_assigned (get_or-set_ne t.slots i j none no_slot ne) ∙ off) off

stop_from-off :
    (i k j : ℕ) (t : Tdma) → assigned t.slots j ≡ false → assigned (stop_from i k t).slots j ≡ false
unfolding stop_from
stop_from-off i zero j t off = off
stop_from-off i (suc k) j t off =
    stop_from-off (i + 1) k j (release_slot i t) (release_slot-off i j t off)

stop_from-within :
    (i k j : ℕ) (t : Tdma) → i ≤ j → j < i + k → assigned (stop_from i k t).slots j ≡ false
unfolding stop_from
stop_from-within i zero j t le lt = absurd (omega arith)
stop_from-within i (suc k) j t le lt = elim (ℕ_discrete i j) [
  | yes same ↦ stop_from-off (i + 1) k j (release_slot i t) (rw (sym same) (release_slot-same i t))
  | no ne ↦ stop_from-within (i + 1) k j (release_slot i t) (omega arith) (omega arith)
]

-- After a stop no slot is assigned and, if no stray timer ran before, no timer of a slot runs.
pub stop-at_rest :
    (t : Tdma) (i : ℕ)
    → NoStray t
    → (assigned (stop t).slots i ≡ false) × ((stop t).timers (slot i) ≡ none)
unfolding stop
stop-at_rest t i clean = (free, stop_from-NoStray 0 (length t.slots) t clean i free)
  where
    free : assigned (stop_from 0 (length t.slots) t).slots i ≡ false
    free = elim (dec_lt i (length t.slots)) [
      | yes lt ↦ stop_from-within 0 (length t.slots) i t (omega arith) (omega arith)
      | no out ↦ stop_from-off 0 (length t.slots) i t (beyond t.slots i (omega arith))
    ]
