-- ===== src/Tdma/Schedule.antt =====
-- The timers that a superframe leaves running.
use uwb_core.Common.{
  ℕ, zero, suc, ◌+◌, ◌<◌, ◌≡◌, ◌≢◌, refl, ap, ◌∙◌, false, List, [], ◌∷◌, Option, none, some,
  if◌then◌else◌, ==_refl, ne→==, arith, inl, inr, Bool-cases,
}
use uwb_core.Tdma.{
  superframe, slot, same_owner, Slot, Timers, timer_stop, timer_start_at, Tdma, is_assigned,
  assigned, stop_slots, start_slots, slot_start, superframe_slot_cb,
}

pub timer_stop-ne : (i j : ℕ) (f : Timers) → i ≢ j → timer_stop (slot i) f (slot j) ≡ f (slot j)
unfolding timer_stop same_owner
timer_stop-ne i j f ne = rw (ne→== i j ne) refl

timer_start_at-ne :
    (i j t : ℕ) (f : Timers) → i ≢ j → timer_start_at (slot i) t f (slot j) ≡ f (slot j)
unfolding timer_start_at same_owner
timer_start_at-ne i j t f ne = rw (ne→== i j ne) refl

pub timer_stop_here : (i j : ℕ) (f : Timers) → i ≡ j → timer_stop (slot i) f (slot j) ≡ none
unfolding timer_stop same_owner
timer_stop_here i j f e = rw (e, ==_refl j) refl

started_here :
    (start : ℕ → ℕ) (i j : ℕ) (f : Timers)
    → i ≡ j
    → timer_start_at (slot i) (start i) f (slot j) ≡ some (start j)
unfolding timer_start_at same_owner
started_here start i j f e = rw (e, ==_refl j) refl

-- Slots before the loop's first are not touched.
stop_slots-below :
    (i j : ℕ) (ss : List (Option Slot)) (f : Timers)
    → j < i
    → stop_slots i ss f (slot j) ≡ f (slot j)
unfolding stop_slots
stop_slots-below i j [] f lt = refl
stop_slots-below i j (none ∷ ss) f lt = stop_slots-below (i + 1) j ss f (omega arith)
stop_slots-below i j (some s ∷ ss) f lt =
    stop_slots-below (i + 1) j ss (timer_stop (slot i) f) (omega arith)
    ∙ timer_stop-ne i j f (λ e. absurd (omega arith))

-- The loop leaves a timer running only where no slot is assigned.
stop_slots-at :
    (i k j : ℕ) (ss : List (Option Slot)) (f : Timers)
    → j ≡ i + k
    → stop_slots i ss f (slot j) ≡ (if assigned ss k then none else f (slot j))
unfolding stop_slots is_assigned
stop_slots-at i k j [] f e = refl
stop_slots-at i zero j (none ∷ ss) f e = stop_slots-below (i + 1) j ss f (omega arith)
stop_slots-at i (suc k) j (none ∷ ss) f e = stop_slots-at (i + 1) k j ss f (omega arith)
stop_slots-at i zero j (some s ∷ ss) f e =
    stop_slots-below (i + 1) j ss (timer_stop (slot i) f) (omega arith)
    ∙ timer_stop_here i j f (omega arith)
stop_slots-at i (suc k) j (some s ∷ ss) f e =
    stop_slots-at (i + 1) k j ss (timer_stop (slot i) f) (omega arith)
    ∙ ap (λ (x : Option ℕ). if assigned ss k then none else x)
        (timer_stop-ne i j f (λ same. absurd (omega arith)))

-- The starts of the loop, from slot `i` on.
start_slots-below :
    (start : ℕ → ℕ) (i j : ℕ) (ss : List (Option Slot)) (f : Timers)
    → j < i
    → (start_slots start i ss f).1 (slot j) ≡ f (slot j)
unfolding start_slots
start_slots-below start i j [] f lt = refl
start_slots-below start i j (none ∷ ss) f lt = start_slots-below start (i + 1) j ss f (omega arith)
start_slots-below start i j (some s ∷ ss) f lt =
    start_slots-below start (i + 1) j ss (timer_start_at (slot i) (start i) f) (omega arith)
    ∙ timer_start_at-ne i j (start i) f (λ e. absurd (omega arith))

start_slots-at :
    (start : ℕ → ℕ) (i k j : ℕ) (ss : List (Option Slot)) (f : Timers)
    → j ≡ i + k
    → (start_slots start i ss f).1 (slot j) ≡ (if assigned ss k then some (start j) else f (slot j))
unfolding start_slots is_assigned
start_slots-at start i k j [] f e = refl
start_slots-at start i zero j (none ∷ ss) f e = start_slots-below start (i + 1) j ss f (omega arith)
start_slots-at start i (suc k) j (none ∷ ss) f e =
    start_slots-at start (i + 1) k j ss f (omega arith)
start_slots-at start i zero j (some s ∷ ss) f e =
    start_slots-below start (i + 1) j ss (timer_start_at (slot i) (start i) f) (omega arith)
    ∙ started_here start i j f (omega arith)
start_slots-at start i (suc k) j (some s ∷ ss) f e =
    start_slots-at start (i + 1) k j ss (timer_start_at (slot i) (start i) f) (omega arith)
    ∙ ap (λ (x : Option ℕ). if assigned ss k then some (start j) else x)
        (timer_start_at-ne i j (start i) f (λ same. absurd (omega arith)))

-- Slots are assigned as before, and each has its start.
pub start_slots-assigned :
    (start : ℕ → ℕ) (i k : ℕ) (ss : List (Option Slot)) (f : Timers)
    → assigned (start_slots start i ss f).0 k ≡ assigned ss k
unfolding start_slots is_assigned
start_slots-assigned start i k [] f = refl
start_slots-assigned start i zero (none ∷ ss) f = refl
start_slots-assigned start i zero (some s ∷ ss) f = refl
start_slots-assigned start i (suc k) (none ∷ ss) f = start_slots-assigned start (i + 1) k ss f
start_slots-assigned start i (suc k) (some s ∷ ss) f =
    start_slots-assigned start (i + 1) k ss (timer_start_at (slot i) (start i) f)

-- No timer of a slot runs unless the slot is assigned.
abbrev pub NoStray : Tdma → Type 0
NoStray t = (i : ℕ) → assigned t.slots i ≡ false → t.timers (slot i) ≡ none

module _ (to_ticks to_us : ℕ → ℕ) (latency max_delay period : ℕ) where
  -- Where no stray timer ran before, the timers that run after the superframe event are those of
  -- the assigned slots, each with the start of its slot, and that of the superframe.
  pub superframe_slot_cb-timers :
      (t : Tdma)
      → NoStray t
      → let t' = superframe_slot_cb to_ticks to_us latency max_delay period t in
        (t'.timers superframe ≡ some t'.superframe_start)
        × ((i : ℕ)
            → t'.timers (slot i) ≡ (
                if assigned t.slots i
                then some (slot_start to_ticks to_us latency max_delay period t i)
                else none))
  unfolding superframe_slot_cb timer_start_at timer_stop same_owner
  superframe_slot_cb-timers t clean = (refl, λ i. at i)
    where
      before : Timers
      before = timer_stop superframe t.timers

      start : ℕ → ℕ
      start = slot_start to_ticks to_us latency max_delay period t

      stopped : (i : ℕ) → assigned t.slots i ≡ false → stop_slots 0 t.slots before (slot i) ≡ none
      stopped i off = stop_slots-at 0 i i t.slots before (omega arith) ∙ rw off (clean i off)

      at :
          (i : ℕ)
          → (start_slots start 0 t.slots (stop_slots 0 t.slots before)).1 (slot i)
            ≡ (if assigned t.slots i then some (start i) else none)
      at i = elim (Bool-cases (assigned t.slots i)) [
        | inl on ↦
            start_slots-at start 0 i i t.slots (stop_slots 0 t.slots before) (omega arith)
            ∙ rw on refl
        | inr off ↦
            start_slots-at start 0 i i t.slots (stop_slots 0 t.slots before) (omega arith)
            ∙ rw off (stopped i off)
      ]
