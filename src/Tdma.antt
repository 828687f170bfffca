-- ===== src/Tdma.antt =====
-- lib/tdma/src/tdma.c: the slots of a superframe, their timers and the events that they put.
pub mod Schedule
pub mod Stray
pub mod Stop
pub mod Order
mod Tests
use uwb_core.Common.{
  ℕ, zero, suc, ◌+◌, ◌*◌, ◌/◌, Bool, true, false, not, ◌&&◌, ◌||◌, any, List, [], ◌∷◌, ◌++◌, Option,
  none, some, length, get_or, set, replicate, if◌then◌else◌, ◌==◌, ltb, u32, sub32,
}

-- Who a timer and an event belong to: `superframe_slot`, or `slot[i]`.
pub data Owner : Type 0 where
  superframe : Owner
  slot : ℕ → Owner

unfoldable pub same_owner : Owner → Owner → Bool
same_owner superframe superframe = true
same_owner superframe (slot j) = false
same_owner (slot i) superframe = false
same_owner (slot i) (slot j) = i == j

-- `struct _tdma_slot_t` less its timer and its event, which the owner names; `call_back` and `arg`
-- are the pointers.
pub record Slot : Type 0 where
  pub idx : ℕ
  pub cputime_slot_start : ℕ
  pub call_back : ℕ
  pub arg : ℕ

-- The timers that run, with the times at which they end.
abbrev pub Timers : Type 0
Timers = Owner → Option ℕ

-- `dpl_cputime_timer_stop`
unfoldable pub timer_stop : Owner → Timers → Timers
timer_stop o f o' = if same_owner o o' then none else f o'

-- `hal_timer_start_at`
unfoldable pub timer_start_at : Owner → ℕ → Timers → Timers
timer_start_at o t f o' = if same_owner o o' then some t else f o'

-- `struct _tdma_instance_t`; `nslots` is the length of `slots`, `queue` the events in its event
-- queue.
pub record Tdma : Type 0 where
  pub initialized : Bool
  pub os_epoch : ℕ
  pub superframe_start : ℕ
  pub slots : List (Option Slot)
  pub timers : Timers
  pub queue : List Owner

abbrev pub no_slot : Option Slot
no_slot = none

unfoldable pub is_assigned : Option Slot → Bool
is_assigned none = false
is_assigned (some s) = true

abbrev pub assigned : List (Option Slot) → ℕ → Bool
assigned ss i = is_assigned (get_or ss i no_slot)

-- `tdma_init`, at a time `now`
unfoldable pub init : ℕ → ℕ → Tdma
init nslots now = record {
  initialized = true;
  os_epoch = now;
  superframe_start = 0;
  slots = replicate nslots none;
  timers = λ _. none;
  queue = [];
}

unfoldable pub superframe_cb : ℕ → Tdma → Tdma
superframe_cb ccp_epoch t =
    if t.initialized
    then record t { os_epoch = ccp_epoch; queue = t.queue ++ (superframe ∷ []) }
    else t

-- a new slot, with its timer at rest
abbrev pub new_slot : ℕ → ℕ → ℕ → Slot
new_slot call_back i arg = record {
  idx = i;
  cputime_slot_start = 0;
  call_back = call_back;
  arg = arg;
}

unfoldable pub is_running : Option ℕ → Bool
is_running none = false
is_running (some t) = true

-- the timer of a slot runs, or its event waits in the event queue
abbrev pub in_queue : ℕ → Tdma → Bool
in_queue i t = is_running (t.timers (slot i)) || any (same_owner (slot i)) t.queue

-- `none` is the assignment of a slot that a queue leads to: the queue is left with a timer or an event
-- whose links are cleared, and its state is not defined from there on.
unfoldable pub assign_slot : ℕ → ℕ → ℕ → Tdma → Option Tdma
assign_slot call_back i arg t =
    if not t.initialized
    then some t
    else if assigned t.slots i && in_queue i t
    then none
    else some (record t { slots = set t.slots i (some (new_slot call_back i arg)) })

unfoldable pub release_slot : ℕ → Tdma → Tdma
release_slot i t =
    if assigned t.slots i
    then record t { timers = timer_stop (slot i) t.timers; slots = set t.slots i none }
    else t

-- the loop of `tdma_stop` from slot `i` on, with the rounds left; a release stops the timer too
unfoldable pub stop_from : ℕ → ℕ → Tdma → Tdma
unfolding release_slot
stop_from i zero t = t
stop_from i (suc k) t = stop_from (i + 1) k (release_slot i t)

unfoldable pub stop : Tdma → Tdma
stop t = stop_from 0 (length t.slots) t

-- "Stop existing timers", from slot `i` on
unfoldable pub stop_slots : ℕ → List (Option Slot) → Timers → Timers
stop_slots i [] f = f
stop_slots i (none ∷ ss) f = stop_slots (i + 1) ss f
stop_slots i (some s ∷ ss) f = stop_slots (i + 1) ss (timer_stop (slot i) f)

-- The loop that starts each slot's timer, from slot `i` on.
unfoldable pub start_slots : (ℕ → ℕ) → ℕ → List (Option Slot) → Timers → List (Option Slot) × Timers
start_slots start i [] f = ([], f)
start_slots start i (none ∷ ss) f =
    let (rest, g) = start_slots start (i + 1) ss f in (none ∷ rest, g)
start_slots start i (some s ∷ ss) f =
    let (rest, g) = start_slots start (i + 1) ss (timer_start_at (slot i) (start i) f) in
    (some (record s { cputime_slot_start = start i }) ∷ rest, g)

-- `uwb_dwt_usecs_to_usecs` as the kernel build has it, in integers: `(s64)(128*499.2)` is 63897.
unfoldable pub dwt_usecs_to_usecs : ℕ → ℕ
dwt_usecs_to_usecs t = t * 65536 / 63897

-- The conversions of the porting layer, `dpl_cputime_usecs_to_ticks` and
-- `dpl_cputime_ticks_to_usecs`; the settings OS_LATENCY and TDMA_MAX_SLOT_DELAY_US; and the period
-- of the ccp instance.
module _ (to_ticks to_us : ℕ → ℕ) (latency max_delay period : ℕ) where
  unfoldable pub slot_period_us : Tdma → ℕ
  slot_period_us t = u32 (dwt_usecs_to_usecs (period / length t.slots))

  -- when slot `i` starts
  unfoldable pub slot_start : Tdma → ℕ → ℕ
  slot_start t i = u32 (t.os_epoch + to_ticks (sub32 (u32 (i * slot_period_us t)) latency))

  unfoldable pub superframe_slot_cb : Tdma → Tdma
  superframe_slot_cb t =
      let stopped = stop_slots 0 t.slots (timer_stop superframe t.timers) in
      let (ss, f) = start_slots (slot_start t) 0 t.slots stopped in
      let end =
        u32 (t.os_epoch + to_ticks (u32 (u32 (dwt_usecs_to_usecs period) + slot_period_us t))) in
      record t { slots = ss; superframe_start = end; timers = timer_start_at superframe end f }

  -- A timer that ended, and `slot_timer_cb`.
  unfoldable pub slot_timer_cb : Owner → Tdma → Tdma
  slot_timer_cb superframe t = record t { timers = timer_stop superframe t.timers }
  slot_timer_cb (slot i) t = record t {
    timers = timer_stop (slot i) t.timers;
    queue = t.queue ++ (slot i ∷ []);
  }

  -- "drop event": whether `tdma_task` runs the event of a slot at the time `now`.
  unfoldable pub runs : ℕ → Slot → Bool
  runs now s = not (not (s.idx == 0) && ltb max_delay (to_us (sub32 now s.cputime_slot_start)))
