-- ===== src/Tdma/Tests.antt =====
-- A superframe of lib/tdma with four slots of 250 ms.
use uwb_core.Common.{ℕ, ◌≡◌, refl, set, false, none, some, arith, if◌then◌else◌}
use uwb_core.Tdma.{
  superframe, slot, Tdma, init, assigned, assign_slot, new_slot, is_running, is_assigned, stop,
  superframe_slot_cb, slot_start,
}
use uwb_core.Tdma.Schedule.{NoStray, superframe_slot_cb-timers}
use uwb_core.Tdma.Stray.{Run, starts, goes_on, assigns, Run-NoStray}
use uwb_core.Tdma.Stop.{stop-at_rest}

-- the clock ticks in µs
abbrev same : ℕ → ℕ
same t = t

abbrev idle : Tdma
idle = init 4 5000

abbrev one_slot : Tdma
one_slot = record idle { slots = set idle.slots 2 (some (new_slot 77 2 0)) }

one_slot-assigned : assign_slot 77 2 0 idle ≡ some one_slot
unfolding assign_slot init is_running is_assigned
one_slot-assigned = refl

-- the timer of the slot runs, and the slot is assigned anew
assigned_anew : assign_slot 78 2 0 (record one_slot { timers = λ _. some 9 }) ≡ none
unfolding assign_slot init is_running is_assigned
assigned_anew = refl

one_slot-Run : Run same same 1000 0 1024000 4 5000 one_slot
unfolding init
one_slot-Run = goes_on starts (assigns 77 2 0 one_slot (omega arith) one_slot-assigned)

one_slot-NoStray : NoStray one_slot
one_slot-NoStray = Run-NoStray same same 1000 0 1024000 4 5000 one_slot one_slot-Run

abbrev planned : Tdma
planned = superframe_slot_cb same same 1000 0 1024000 one_slot

superframe_slot_cb-timers_example :
    (planned.timers superframe ≡ some planned.superframe_start)
    × ((i : ℕ)
        → planned.timers (slot i) ≡ (
            if assigned one_slot.slots i
            then some (slot_start same same 1000 0 1024000 one_slot i)
            else none))
superframe_slot_cb-timers_example =
    superframe_slot_cb-timers same same 1000 0 1024000 one_slot one_slot-NoStray

stop-at_rest_example :
    (assigned (stop one_slot).slots 2 ≡ false) × ((stop one_slot).timers (slot 2) ≡ none)
stop-at_rest_example = stop-at_rest one_slot 2 one_slot-NoStray
