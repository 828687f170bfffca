-- ===== src/Panmaster/Tests.antt =====
-- The master of lib/panmaster at work on an index of four entries.
use uwb_core.Common.{
  ℕ, zero, suc, ◌%◌, ◌<◌, ◌≤◌, ◌≡◌, ◌≢◌, ◌⊎◌, refl, Bool, true, false, List, [], ◌∷◌, arith,
  find_idx?, get_or,
}
use uwb_core.PanUtils.{ReqResp}
use uwb_core.Panmaster.Types.{NodeIdx, Master, Timeval, zero_entry, zero_node, node_idx_default}
use uwb_core.Panmaster.Address.{first_free_short_addr, try_addrs, addr_used, candidate}
use uwb_core.Panmaster.Address.Fresh.{first_free_short_addr_lem}
use uwb_core.Panmaster.Address.Available.{first_free_short_addr-ne_zero}
use uwb_core.Panmaster.Slot.{first_free_slot_id, slot_search, slot_taken, slot_lease_expired}
use uwb_core.Panmaster.Slot.Free.{Holds, first_free_slot_id_lem}
use uwb_core.Panmaster.Index.{
  entry, idx_find_node, place, find_first_empty_nodes_to_save, find_euid, known_node, new_node,
}
use uwb_core.Panmaster.Index.Apart.{Occupied}
use uwb_core.Panmaster.Index.Answer.{buffer}
use uwb_core.Panmaster.Index.Again.{Stays, idx_find_node-Stays, idx_find_node_twice}
use uwb_core.Panmaster.Request.{panrequest_cb, respond}
use uwb_core.Panmaster.Request.Leases.{IsMaster, Call, answers, answers-IsMaster}
use uwb_core.Panmaster.Request.Response.{Granted, lease_of, panrequest_cb-Granted}

abbrev free_entry : NodeIdx
free_entry = node_idx_default zero_entry

abbrev tag_entry : NodeIdx
tag_entry = record {
  addr = 0x2042;
  slot_id = 0;
  euid = 0x1122042;
  role = 2;
  has_perm_slot = false;
  save_needed = true;
  lease_ends = 60000;
}

abbrev nodes : List NodeIdx
nodes = tag_entry ∷ free_entry ∷ free_entry ∷ free_entry ∷ []

abbrev master : Master
master = record {
  node_idx = nodes;
  nodes_to_save = zero_node ∷ zero_node ∷ zero_node ∷ [];
  pan_id = 0x100;
}

abbrev blink : ReqResp
blink = record {
  role = 2;
  lease_time = 0;
  pan_id = 0x0102;
  short_address = 3;
  slot_id = 4;
  padding = 0;
}

abbrev at_second : ℕ → Timeval
at_second s = record { tv_sec = s; tv_usec = 0 }

first_free_short_addr_lem_example :
    (first_free_short_addr nodes 0x2042 ≡ 0)
    ⊎ (((j : ℕ) → j < 4 → (get_or nodes j zero_entry).addr ≢ first_free_short_addr nodes 0x2042)
        × (first_free_short_addr nodes 0x2042 < 0x10000)
        × (first_free_short_addr nodes 0x2042 % 4096 ≡ 0x42))
first_free_short_addr_lem_example = first_free_short_addr_lem nodes 0x2042 (omega arith)

-- The id's own low bits are taken, so the next candidate is.
next_address : first_free_short_addr nodes 0x2042 ≡ 0x1042
unfolding first_free_short_addr try_addrs addr_used candidate
next_address = refl

first_free_short_addr-ne_zero_example : first_free_short_addr nodes 0x77005042 ≢ 0
first_free_short_addr-ne_zero_example =
    first_free_short_addr-ne_zero nodes 0x77005042 2
      (record {
        few = omega arith;
        nibble = omega arith;
        low_zero = omega arith;
        low_full = omega arith;
      })
      (omega arith) refl

first_free_slot_id_lem_example :
    let s = first_free_slot_id 1000 0x1042 2 nodes in
    (s ≤ 4)
    × ((j : ℕ) → j < 4 → ¬ Holds 1000 0x1042 2 s (get_or nodes j zero_entry))
    × ((k : ℕ) → k < s → (j : ℕ) × (j < 4) × Holds 1000 0x1042 2 k (get_or nodes j zero_entry))
first_free_slot_id_lem_example = first_free_slot_id_lem 1000 0x1042 2 nodes (omega arith)

-- A second tag gets the second slot, an anchor the first.
next_slots :
    (first_free_slot_id 1000 0x1042 2 nodes ≡ 1) × (first_free_slot_id 1000 0x1042 1 nodes ≡ 0)
unfolding first_free_slot_id slot_search slot_taken slot_lease_expired
next_slots = (refl, refl)

only_first : (i : ℕ) → i < 4 → Occupied (entry nodes i) → i ≡ 0
only_first zero lt occ = refl
only_first (suc zero) lt occ = absurd (occ refl)
only_first (suc (suc zero)) lt occ = absurd (occ refl)
only_first (suc (suc (suc zero))) lt occ = absurd (occ refl)
only_first (suc (suc (suc (suc i)))) lt occ = absurd (omega arith)

alone : (i j : ℕ) → i < 4 → j < 4 → i ≢ j → Occupied (entry nodes i) → Occupied (entry nodes j) → ⊥
alone i j lt ltj ne oi oj = omega (arith, only_first i lt oi, only_first j ltj oj)

master-IsMaster : IsMaster (λ _. 2) 1000 master
master-IsMaster = record {
  small = omega arith;
  roles = λ i lt occ. rw (only_first i lt occ);
  euids = λ i j lt ltj ne oi oj. absurd (alone i j lt ltj ne oi oj);
  addrs = λ i j lt ltj ne oi oj. absurd (alone i j lt ltj ne oi oj);
  slots = λ i j lt ltj ne oi oj. absurd (alone i j lt ltj ne oi oj);
}

-- A new tag, and the first one again.
abbrev calls : List Call
calls =
    record { locked = false; tv = at_second 2; utc = 7; euid = 0x5042; frame = blink }
    ∷ record { locked = false; tv = at_second 3; utc = 8; euid = 0x1122042; frame = blink }
    ∷ []

answers-IsMaster_example : IsMaster (λ _. 2) 3000 (answers calls master)
answers-IsMaster_example =
    answers-IsMaster (λ _. 2) 1000 calls master
      (
        omega arith,
        omega arith,
        omega arith,
        refl,
        (omega arith, omega arith, omega arith, refl, tt),
      )
      master-IsMaster

abbrev first_answer : Bool × ReqResp × Master
first_answer = panrequest_cb false true (at_second 2) 7 0x5042 blink blink master

first_answer_lem :
    (first_answer.0 ≡ true)
    × (first_answer.1 ≡ record {
      role = 2;
      lease_time = 30;
      pan_id = 0x100;
      short_address = 0x5042;
      slot_id = 1;
      padding = 0;
    })
unfolding panrequest_cb respond idx_find_node place find_first_empty_nodes_to_save find_euid
    find_idx? new_node first_free_short_addr try_addrs addr_used candidate first_free_slot_id
    slot_search slot_taken slot_lease_expired
first_answer_lem = (refl, refl)

panrequest_cb-Granted_example :
    (first_answer.1.lease_time ≡ lease_of 0)
    × ((at : ℕ) × Granted
          (at_second 2)
          0x5042
          first_answer.1.lease_time
          first_answer.1
          first_answer.2
          at)
panrequest_cb-Granted_example =
    panrequest_cb-Granted false (at_second 2) 7 0x5042 blink master (omega arith) first_answer_lem.0

idx_find_node-Stays_example :
    Stays tag_entry (entry (idx_find_node false 1000 7 0x5042 2 master).2.node_idx 0)
idx_find_node-Stays_example =
    idx_find_node-Stays false 1000 7 0x5042 2 0 master (omega arith) (omega arith)

abbrev again : Master
again = (idx_find_node false 1000 7 0x1122042 2 master).2

idx_find_node_twice_example :
    ((buffer (idx_find_node false 2000 9 0x1122042 2 again).2 1).index ≡ (buffer again 0).index)
    × ((buffer (idx_find_node false 2000 9 0x1122042 2 again).2 1).addr ≡ (buffer again 0).addr)
unfolding idx_find_node place find_first_empty_nodes_to_save find_euid find_idx? known_node
    first_free_slot_id slot_search slot_taken slot_lease_expired
idx_find_node_twice_example =
    idx_find_node_twice false false 1000 2000 7 9 0x1122042 2 2 0 1 master (omega arith)
      master-IsMaster.euids refl refl
