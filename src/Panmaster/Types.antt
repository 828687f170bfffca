-- ===== src/Panmaster/Types.antt =====
-- The structures of lib/panmaster/include/panmaster/panmaster.h and of panmaster.c's static data.
use uwb_core.Common.{ℕ, ◌+◌, ◌*◌, ◌/◌, Bool, false, List, if◌then◌else◌, u32}
use uwb_core.PanUtils.{Version, no_version}

-- `struct panmaster_node`; an `euid` is its 64-bit pattern, `dummy` the eleven unused flag bits.
pub record Node : Type 0 where
  pub first_seen_utc : ℕ
  pub euid : ℕ
  pub addr : ℕ
  pub dummy : ℕ
  pub has_perm_slot : Bool
  pub role : ℕ
  pub index : ℕ
  pub slot_id : ℕ
  pub fw_ver : Version

abbrev pub bit : Bool → ℕ
bit b = if b then 1 else 0

-- The `flags` view of the union: 11 bits of `dummy`, one of `has_perm_slot`, four of `role`.
abbrev pub flags : Node → ℕ
flags n = n.dummy + 2048 * bit n.has_perm_slot + 4096 * n.role

-- `struct panmaster_node_idx`
pub record NodeIdx : Type 0 where
  pub addr : ℕ
  pub slot_id : ℕ
  pub euid : ℕ
  pub role : ℕ
  pub has_perm_slot : Bool
  pub save_needed : Bool
  pub lease_ends : ℕ

-- An entry of the zeroed static array.
abbrev pub zero_entry : NodeIdx
zero_entry = record {
  addr = 0;
  slot_id = 0;
  euid = 0;
  role = 0;
  has_perm_slot = false;
  save_needed = false;
  lease_ends = 0;
}

-- A zeroed `struct panmaster_node`.
abbrev pub zero_node : Node
zero_node = record {
  first_seen_utc = 0;
  euid = 0;
  addr = 0;
  dummy = 0;
  has_perm_slot = false;
  role = 0;
  index = 0;
  slot_id = 0;
  fw_ver = no_version;
}

-- PANMASTER_NODE_DEFAULT
abbrev pub node_default : Node
node_default = record zero_node { addr = 0xffff; slot_id = 0xffff }

-- PANMASTER_NODE_IDX_DEFAULT
abbrev pub node_idx_default : NodeIdx → NodeIdx
node_idx_default n = record n { addr = 0xffff; slot_id = 0xffff; role = 0 }

-- The static data of panmaster.c; the array lengths are PANMASTER_MAXNUM_NODES and
-- PANMASTER_NODES_TO_SAVE.
pub record Master : Type 0 where
  pub node_idx : List NodeIdx
  pub nodes_to_save : List Node
  pub pan_id : ℕ

-- `struct dpl_timeval`
pub record Timeval : Type 0 where
  pub tv_sec : ℕ
  pub tv_usec : ℕ

-- `tv.tv_sec*1000 + tv.tv_usec/1000`, cut to 32 bits
abbrev pub uptime_ms : Timeval → ℕ
uptime_ms tv = u32 (tv.tv_sec * 1000 + tv.tv_usec / 1000)
