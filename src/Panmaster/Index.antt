-- ===== src/Panmaster/Index.antt =====
-- The node index: `find_first_empty_nodes_to_save` and `panmaster_idx_find_node` of panmaster.c.
pub mod Apart
pub mod Write
pub mod Keep
pub mod Answer
pub mod Again
pub mod Own
use uwb_core.Common.{
  ℕ, ◌+◌, ◌%◌, ◌<◌, Bool, true, false, not, ◌&&◌, Option, none, some, List, ◌==◌, ltb,
  if◌then◌else◌, get_or, set, find_idx?, u8,
}
use uwb_core.Panmaster.Types.{
  Node, NodeIdx, Master, Timeval, zero_entry, zero_node, node_default, uptime_ms,
}
use uwb_core.Panmaster.Address.{first_free_short_addr}
use uwb_core.Panmaster.Slot.{first_free_slot_id}

abbrev pub entry : List NodeIdx → ℕ → NodeIdx
entry t i = get_or t i zero_entry

abbrev pub is_free : NodeIdx → Bool
is_free n = n.addr == 0xffff

-- The mutex is taken with no wait: `locked` says that another task holds it.
unfoldable pub find_first_empty_nodes_to_save : Bool → ℕ → List Node → Option (ℕ × List Node)
find_first_empty_nodes_to_save locked euid nodes =
    if locked then none else elim (find_idx? (λ n. n.euid == 0) nodes) [
      | none ↦ none
      | some k ↦ some (k, set nodes k (record (get_or nodes k zero_node) { euid = euid }))
    ]

-- the loop "Look for an existing node"
unfoldable pub find_euid : ℕ → List NodeIdx → Option ℕ
find_euid euid = find_idx? (λ n. not (is_free n) && (euid == n.euid))

-- A known node: its slot, unless permanent, is chosen anew, and the entry is copied to
-- `nodes_to_save[k]`.
unfoldable pub known_node : ℕ → ℕ → ℕ → ℕ → Master → Master
known_node now role k i m =
    let e = entry m.node_idx i in
    let slot =
      if e.has_perm_slot
      then (entry m.node_idx (u8 i)).slot_id
      else first_free_slot_id now e.addr role m.node_idx in
    let t =
      if e.has_perm_slot
      then m.node_idx
      else set m.node_idx (u8 i) (record (entry m.node_idx (u8 i)) { slot_id = slot }) in
    let new_role = not (e.role % 16 == role) && ltb 0 role in
    record m {
      node_idx = if new_role then set t i (record (entry t i) { save_needed = true }) else t;
      nodes_to_save = set m.nodes_to_save k (record (get_or m.nodes_to_save k zero_node) {
        index = u8 i;
        addr = e.addr;
        euid = e.euid;
        role = if new_role then role % 16 else e.role % 16;
        has_perm_slot = e.has_perm_slot;
        slot_id = slot;
      });
    }

-- A new node takes the free entry `i`.
unfoldable pub new_node : ℕ → ℕ → ℕ → ℕ → ℕ → ℕ → Master → Master
new_node now utc euid role k i m =
    let addr = first_free_short_addr m.node_idx euid in
    let t =
      set m.node_idx i (record (entry m.node_idx i) { addr = addr; euid = euid; role = u8 role }) in
    let slot = first_free_slot_id now addr role t in
    record m {
      node_idx = set t i (record (entry t i) { slot_id = slot; save_needed = true });
      nodes_to_save = set m.nodes_to_save k (record node_default {
        first_seen_utc = utc;
        euid = euid;
        addr = addr;
        role = role % 16;
        slot_id = slot;
        index = u8 i;
      });
    }

-- The rest of the function, after the buffer `k` was taken.
unfoldable pub place : ℕ → ℕ → ℕ → ℕ → Master → ℕ → ℕ × Option ℕ × Master
place now utc euid role m k = elim (find_euid euid m.node_idx) [
  | some i ↦ (0, some k, known_node now role k i m)
  | none ↦ elim (find_idx? is_free m.node_idx) [
    | some i ↦ (0, some k, new_node now utc euid role k i m)
    | none ↦ (0, none, m)
  ]
]

-- The return code, the index into `nodes_to_save` that `*results` is set to, if it is set, and the
-- new state. `now` and `utc` are what the clocks give.
unfoldable pub idx_find_node : Bool → ℕ → ℕ → ℕ → ℕ → Master → ℕ × Option ℕ × Master
unfolding place
idx_find_node locked now utc euid role m =
    elim (find_first_empty_nodes_to_save locked euid m.nodes_to_save) [
      | none ↦ (1, none, m)
      | some (k, nodes) ↦ place now utc euid role (record m { nodes_to_save = nodes }) k
    ]
