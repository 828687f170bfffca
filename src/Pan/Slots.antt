-- ===== src/Pan/Slots.antt =====
-- `uwb_pan_slot_timer_cb` of lib/uwb_pan/src/uwb_pan.c: what a node does in a slot for the PAN.
pub mod Renewal
use uwb_core.Common.{
  ℕ, zero, suc, ◌+◌, ◌*◌, ◌/◌, Bool, true, false, ◌&&◌, List, [], ◌∷◌, if◌then◌else◌, ◌==◌, ltb, u8,
  u16, u32,
}
use uwb_core.Pan.Instance.{Pan, role_relay}

-- The operation that the slot starts, with the receive timeout of a listen.
pub data SlotAction : Type 0 where
  sends_reset : SlotAction
  listens_for : ℕ → SlotAction
  sends_blink : SlotAction

-- `3*ccp->period/tdma->nslots/4`
abbrev pub long_timeout : ℕ → ℕ → ℕ
long_timeout period nslots = u32 (3 * period) / nslots / 4

-- A master: `cycles` is the static `_pan_cycles`, which counts the resets.
unfoldable pub master_slot : ℕ → ℕ → ℕ → SlotAction × ℕ
master_slot period nslots cycles =
    if ltb cycles 8
    then (sends_reset, u8 (cycles + 1))
    else (listens_for (long_timeout period nslots), cycles)

-- A node: `remaining` is what `uwb_pan_lease_remaining` gives, `margin` UWB_PAN_LEASE_EXP_MARGIN,
-- and `short_timeout` the duration of a frame with XTALT_GUARD.
unfoldable pub node_slot : {S : Type 0} → ℕ → ℕ → ℕ → ℕ → ℕ → Pan S → SlotAction
node_slot period nslots remaining margin short_timeout p =
    if p.valid && ltb margin remaining
    then listens_for
        (u16 (if p.role == role_relay then long_timeout period nslots else short_timeout))
    else sends_blink
