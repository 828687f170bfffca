-- ===== src/Panmaster/StoreTests.antt =====
-- The stored nodes of lib/panmaster at work, on a log that is a list.
use mathlib.Core.List.{Perm}
use uwb_core.Common.{
  ◌↔◌, any, ◌==◌, ℕ, zero, suc, ◌<◌, ◌≡◌, ◌≢◌, refl, true, false, none, some, List, [], ◌∷◌, ◌++◌,
  map, arith, replicate, find_idx?,
}
use uwb_core.Panmaster.Types.{
  Node, NodeIdx, Master, zero_entry, zero_node, node_default, node_idx_default,
}
use uwb_core.Panmaster.Index.{entry, idx_find_node, find_euid}
use uwb_core.Panmaster.Index.Answer.{buffer}
use uwb_core.Panmaster.Store.{Store, latest}
use uwb_core.Panmaster.Nodes.{World, flush, postprocess}
use uwb_core.Panmaster.Nodes.Pending.{postprocess-empties, full_index-flush}
use uwb_core.Panmaster.Flash.{load_idx, node_idx_load_cb, sorted, sort_load, filled_node}
use uwb_core.Panmaster.Flash.Load.{load_idx-eq_none, load_idx-Shows, Shows, newest_at}
use uwb_core.Panmaster.Flash.Taken.{unplaced, in_use}
use uwb_core.Panmaster.Flash.Sort.{sorted_lem, Ascending, Numbered}

-- A log in memory that never fails.
abbrev list_store : Store
list_store = record {
  Log = List Node;
  load = λ l. l;
  save = λ l n. (true, l ++ (n ∷ []));
  clear = λ l. [];
}

abbrev anchor : Node
anchor = record node_default {
  euid = 7;
  addr = 0x11;
  role = 1;
  index = 1;
  has_perm_slot = true;
  slot_id = 4;
}

abbrev tag : Node
tag = record node_default { euid = 9; addr = 0x10; role = 2; index = 0 }

abbrev log : List Node
log = anchor ∷ tag ∷ []

abbrev free_entry : NodeIdx
free_entry = node_idx_default zero_entry

abbrev tag_entry : NodeIdx
tag_entry = record zero_entry { addr = 0x10; euid = 9; role = 2 }

abbrev anchor_entry : NodeIdx
anchor_entry = record zero_entry {
  addr = 0x11;
  euid = 7;
  role = 1;
  slot_id = 4;
  has_perm_slot = true;
}

abbrev master : Master
master = record {
  node_idx = tag_entry ∷ anchor_entry ∷ free_entry ∷ [];
  nodes_to_save = zero_node ∷ zero_node ∷ [];
  pan_id = 1;
}

abbrev full_master : Master
full_master = record master { node_idx = tag_entry ∷ anchor_entry ∷ [] }

abbrev id_bytes : List ℕ
id_bytes = 5 ∷ 0 ∷ 0 ∷ 0 ∷ 0 ∷ 0 ∷ 0 ∷ 0 ∷ []

abbrev pending : Master
pending = record master { nodes_to_save = record tag { addr = 0x12 } ∷ zero_node ∷ [] }

pending-InRange : (k : ℕ) → (buffer pending k).euid ≢ 0 → (buffer pending k).index < 3
pending-InRange zero used = omega arith
pending-InRange (suc zero) used = absurd (used refl)
pending-InRange (suc (suc k)) used = absurd (used refl)

postprocess-empties_example :
    (w : World list_store) × (postprocess list_store (log, pending) ≡ some w)
    × ((j : ℕ) → j < 2 → (buffer w.1 j).euid ≡ 0)
postprocess-empties_example = postprocess-empties list_store log pending pending-InRange

full_index-flush_example :
    let (rc, found, m') = idx_find_node false 1000 5 77 2 full_master in
    (rc ≡ 0)
    × (found ≡ none)
    × ((w : World list_store) × (flush list_store 0 (log, m') ≡ some w)
        × ((entry w.1.node_idx 0).role ≡ 0)
        × ((entry w.1.node_idx 0).has_perm_slot ≡ false)
        × ((entry w.1.node_idx 0).euid ≡ 9)
        × (w.0 ≡ log ++ (record zero_node { euid = 77 } ∷ [])))
unfolding latest find_euid find_idx?
full_index-flush_example =
    full_index-flush list_store 1000 5 77 2 0 log full_master (omega arith) refl refl refl refl refl
      (omega arith)

load_idx-eq_none_example :
    (load_idx full_master.node_idx log ≡ none) ↔ (any (λ n. n.index == 2) log ≡ true)
load_idx-eq_none_example = load_idx-eq_none full_master.node_idx log

load_idx-Shows_example :
    ((n : Node)
      → newest_at 1 log ≡ some n
      → Shows n
          (entry (record zero_entry { addr = 0x10; euid = 9; role = 2 } ∷ anchor_entry ∷ []) 1))
    × (newest_at 1 log ≡ none
        → entry (record zero_entry { addr = 0x10; euid = 9; role = 2 } ∷ anchor_entry ∷ []) 1
          ≡ entry (zero_entry ∷ zero_entry ∷ []) 1)
unfolding load_idx node_idx_load_cb
load_idx-Shows_example =
    load_idx-Shows (zero_entry ∷ zero_entry ∷ [])
      (record zero_entry { addr = 0x10; euid = 9; role = 2 } ∷ anchor_entry ∷ []) log 1 refl
      (omega arith)

sorted_lem_example :
    let out = sorted 3 log in
    Perm (map unplaced out) (in_use (sort_load (replicate 3 filled_node) log))
    × Ascending 0 out
    × Numbered 0 out
sorted_lem_example = sorted_lem 3 log (omega arith)
