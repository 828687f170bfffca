-- ===== src/Tdma/Stray.antt =====
-- A timer never outlives its slot.
use uwb_core.Common.{
  ℕ, zero, suc, ◌+◌, ◌<◌, ◌≡◌, ◌≢◌, refl, sym, ap, ◌∙◌, Bool, true, false, not, ◌&&◌, if◌then◌else◌,
  List, Option, none, some, length, set, get_or-set_self, get_or-set_ne, if-both,
}
use native.Mathlib.Decide.{ℕ_discrete}
use mathlib.Core.Option.{some-injective}
use mathlib.Core.Bool.{false≢true}
use uwb_core.Tdma.{
  Owner, superframe, slot, Slot, Timers, timer_stop, same_owner, Tdma, no_slot, is_assigned,
  assigned, in_queue, new_slot, init, superframe_cb, assign_slot, release_slot, stop_from, stop,
  superframe_slot_cb, slot_timer_cb,
}
use uwb_core.Tdma.Schedule.{
  NoStray, timer_stop-ne, timer_stop_here, start_slots-assigned, superframe_slot_cb-timers,
}

-- What happens to an instance; `ends` is a timer that ends, and assignments are inside the table.
pub data Step (to_ticks to_us : ℕ → ℕ) (latency max_delay period : ℕ) (t : Tdma)
    : Tdma → Type 0 where
  begins :
      (ccp_epoch : ℕ) → Step to_ticks to_us latency max_delay period t (superframe_cb ccp_epoch t)
  assigns :
      (call_back i arg : ℕ) (u : Tdma)
      → i < length t.slots
      → assign_slot call_back i arg t ≡ some u
      → Step to_ticks to_us latency max_delay period t u
  releases : (i : ℕ) → Step to_ticks to_us latency max_delay period t (release_slot i t)
  plans :
      Step to_ticks to_us latency max_delay period t
        (superframe_slot_cb to_ticks to_us latency max_delay period t)
  ends :
      (o : Owner)
      → Step to_ticks to_us latency max_delay period t
          (slot_timer_cb to_ticks to_us latency max_delay period o t)
  stops : Step to_ticks to_us latency max_delay period t (stop t)

-- The states of an instance of `nslots` slots.
pub data Run (to_ticks to_us : ℕ → ℕ) (latency max_delay period nslots now : ℕ)
    : Tdma → Type 0 where
  starts : Run to_ticks to_us latency max_delay period nslots now (init nslots now)
  goes_on :
      {t u : Tdma}
      → Run to_ticks to_us latency max_delay period nslots now t
      → Step to_ticks to_us latency max_delay period t u
      → Run to_ticks to_us latency max_delay period nslots now u

-- A stop of any timer leaves none running that did not.
timer_stop-none :
    (o : Owner) (f : Timers) (i : ℕ) → f (slot i) ≡ none → timer_stop o f (slot i) ≡ none
unfolding timer_stop
timer_stop-none o f i off =
    if-both (λ (x : Option ℕ). x ≡ none) (same_owner o (slot i)) _ _ refl off

-- A slot that was written has what was written, the others what they had.
assigned-ne :
    (ss : List (Option Slot)) (i j : ℕ) (v : Option Slot)
    → i ≢ j
    → assigned (set ss i v) j ≡ assigned ss j
assigned-ne ss i j v ne = ap is_assigned (get_or-set_ne ss i j v no_slot ne)

release_slot-NoStray : (i : ℕ) (t : Tdma) → NoStray t → NoStray (release_slot i t)
unfolding release_slot
release_slot-NoStray i t clean =
    if-both NoStray (assigned t.slots i) _ _
      (λ j off. elim (ℕ_discrete i j) [
        | yes same ↦ timer_stop_here i j t.timers same
        | no ne ↦
            timer_stop-ne i j t.timers ne ∙ clean j (sym (assigned-ne t.slots i j none ne) ∙ off)
      ])
      clean

pub stop_from-NoStray : (i k : ℕ) (t : Tdma) → NoStray t → NoStray (stop_from i k t)
unfolding stop_from
stop_from-NoStray i zero t clean = clean
stop_from-NoStray i (suc k) t clean =
    stop_from-NoStray (i + 1) k (release_slot i t) (release_slot-NoStray i t clean)

written-NoStray :
    (i : ℕ) (v : Slot) (t : Tdma)
    → i < length t.slots
    → NoStray t
    → NoStray (record t { slots = set t.slots i (some v) })
unfolding is_assigned
written-NoStray i v t lt clean = λ j off. elim (ℕ_discrete i j) [
  | yes same ↦ absurd (
      false≢true (
        sym off
        ∙ ap (λ x. assigned (set t.slots i (some v)) x) (sym same)
        ∙ ap is_assigned (get_or-set_self t.slots i (some v) no_slot lt)))
  | no ne ↦ clean j (sym (assigned-ne t.slots i j (some v) ne) ∙ off)
]

-- what an assignment that is defined gives, behind its two tests
assign_slot-NoStray :
    (idle runs : Bool) (t t' u : Tdma)
    → (if idle then some t else if runs then none else some t') ≡ some u
    → NoStray t
    → NoStray t'
    → NoStray u
assign_slot-NoStray true runs t t' u e clean clean' = rw (sym (some-injective _ _ e)) clean
assign_slot-NoStray false true t t' u e clean clean' = absurd (cc e)
assign_slot-NoStray false false t t' u e clean clean' = rw (sym (some-injective _ _ e)) clean'

module _ (to_ticks to_us : ℕ → ℕ) (latency max_delay period : ℕ) where
  pub Step-NoStray :
      (t u : Tdma) → Step to_ticks to_us latency max_delay period t u → NoStray t → NoStray u
  unfolding superframe_cb assign_slot slot_timer_cb stop superframe_slot_cb
  Step-NoStray t _ (begins ccp_epoch) clean = if-both NoStray t.initialized _ _ clean clean
  Step-NoStray t u (assigns call_back i arg _ lt e) clean =
      assign_slot-NoStray (not t.initialized) (assigned t.slots i && in_queue i t) t _ u e clean
        (written-NoStray i (new_slot call_back i arg) t lt clean)
  Step-NoStray t _ (releases i) clean = release_slot-NoStray i t clean
  Step-NoStray t _ plans clean = λ i off.
      let was : assigned t.slots i ≡ false = sym (start_slots-assigned _ 0 i t.slots _) ∙ off in
      (superframe_slot_cb-timers to_ticks to_us latency max_delay period t clean).1 i ∙ rw was refl
  Step-NoStray t _ (ends superframe) clean =
      λ j off. timer_stop-none superframe t.timers j (clean j off)
  Step-NoStray t _ (ends (slot i)) clean =
      λ j off. timer_stop-none (slot i) t.timers j (clean j off)
  Step-NoStray t _ stops clean = stop_from-NoStray 0 (length t.slots) t clean

  pub Run-NoStray :
      (nslots now : ℕ) (t : Tdma)
      → Run to_ticks to_us latency max_delay period nslots now t
      → NoStray t
  unfolding init
  Run-NoStray nslots now _ starts = λ i _. refl
  Run-NoStray nslots now t (goes_on {t = u} run step) =
      Step-NoStray u t step (Run-NoStray nslots now u run)
