-- ===== src/Panmaster/Slot.antt =====
-- The slots: `slot_lease_expired` and `first_free_slot_id` of panmaster.c.
pub mod Free
use uwb_core.Common.{
  ℕ, zero, suc, ◌+◌, Bool, true, false, not, ◌&&◌, ◌||◌, List, any, ◌==◌, if◌then◌else◌, slt32,
}
use uwb_core.Panmaster.Types.{NodeIdx}

-- `now` is the uptime in ms; the comparison is one of `int32_t`.
unfoldable pub slot_lease_expired : ℕ → NodeIdx → Bool
slot_lease_expired now n = if n.lease_ends == 0 then false else slt32 n.lease_ends now

-- The body of the inner loop goes to `next_slot`.
unfoldable pub slot_taken : ℕ → ℕ → ℕ → ℕ → NodeIdx → Bool
slot_taken now node_addr role slot n =
    if (n.addr == 0xffff) || not (role == n.role)
    then false
    else (slot == n.slot_id)
      && not (node_addr == n.addr)
      && (not (slot_lease_expired now n) || n.has_perm_slot)

-- `while (slot_id < 0xffff)`, with the rounds left
unfoldable pub slot_search : ℕ → ℕ → ℕ → List NodeIdx → ℕ → ℕ → ℕ
slot_search now node_addr role t slot zero = 0xffff
slot_search now node_addr role t slot (suc k) =
    let rest = slot_search now node_addr role t (slot + 1) k in
    if any (slot_taken now node_addr role slot) t then rest else slot

unfoldable pub first_free_slot_id : ℕ → ℕ → ℕ → List NodeIdx → ℕ
first_free_slot_id now node_addr role t = slot_search now node_addr role t 0 0xffff
