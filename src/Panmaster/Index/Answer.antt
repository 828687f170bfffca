-- ===== src/Panmaster/Index/Answer.antt =====
-- What `panmaster_idx_find_node` hands to its caller.
use uwb_core.Common.{
  ℕ, ◌≤◌, ◌<◌, ◌≡◌, ◌≢◌, refl, sym, ◌∙◌, Bool, Option, some, List, arith, length, length-set,
  get_or, get_or-set_self, set, inl, inr,
}
use mathlib.Core.Option.{some-injective}
use mathlib.Core.Path.{subst}
use native.Mathlib.Nat.{mod-eq_of_lt}
use uwb_core.Panmaster.Types.{Node, NodeIdx, Master, zero_entry, zero_node}
use uwb_core.Panmaster.Address.{first_free_short_addr}
use uwb_core.Panmaster.Address.Fresh.{first_free_short_addr_lem}
use uwb_core.Panmaster.Index.{entry, idx_find_node, known_node, new_node}
use uwb_core.Panmaster.Index.Apart.{Occupied}
use uwb_core.Panmaster.Index.Write.{
  known_entry, known_node-node_idx, new_entry, new_node-node_idx, reserve, slot_of, Outcome, busy,
  known, fresh, full, idx_find_node-Outcome,
}

-- The node in buffer `k` is the entry of the id, and names its index.
pub record Agrees (euid : ℕ) (m : Master) (n : Node) : Type 0 where
  pub id : n.euid ≡ euid
  pub inside : n.index < length m.node_idx
  pub occupied : Occupied (entry m.node_idx n.index)
  pub same_id : (entry m.node_idx n.index).euid ≡ euid
  pub same_addr : (entry m.node_idx n.index).addr ≡ n.addr
  pub same_slot : (entry m.node_idx n.index).slot_id ≡ n.slot_id

abbrev pub buffer : Master → ℕ → Node
buffer m k = get_or m.nodes_to_save k zero_node

-- The entry at an index that was just written.
written :
    (euid : ℕ) (m : Master) (n : Node) (t : List NodeIdx) (i : ℕ) (e : NodeIdx)
    → i < length t
    → m.node_idx ≡ set t i e
    → n.index ≡ i
    → n.euid ≡ euid
    → Occupied e
    → e.euid ≡ euid
    → e.addr ≡ n.addr
    → e.slot_id ≡ n.slot_id
    → Agrees euid m n
written euid m n t i e lt w at id occ same addr slot = record {
  id = id;
  inside = rw (w, at) (omega (arith, length-set t i e));
  occupied = rw here occ;
  same_id = rw here same;
  same_addr = rw here addr;
  same_slot = rw here slot;
}
  where
    here : entry m.node_idx n.index ≡ e
    here = rw (w, at) (get_or-set_self t i e zero_entry lt)

-- The node in the buffer, after the two ways to fill it.
pub known_node-buffer :
    (now role k i : ℕ) (m : Master)
    → k < length m.nodes_to_save
    → i < length m.node_idx
    → length m.node_idx ≤ 256
    → let e = entry m.node_idx i in
      let n = buffer (known_node now role k i m) k in
      (n.index ≡ i)
      × (n.euid ≡ e.euid)
      × (n.addr ≡ e.addr)
      × (n.slot_id ≡ slot_of now role m.node_idx e)
unfolding known_node
known_node-buffer now role k i m ltk lt small =
    rw (get_or-set_self m.nodes_to_save k _ zero_node ltk)
      (rw (mod-eq_of_lt {n = i} {m = 256} (omega arith)) (refl, refl, refl, refl))

pub new_node-buffer :
    (now utc euid role k i : ℕ) (m : Master)
    → k < length m.nodes_to_save
    → i < length m.node_idx
    → length m.node_idx ≤ 256
    → let n = buffer (new_node now utc euid role k i m) k in
      (n.index ≡ i)
      × (n.euid ≡ euid)
      × (n.addr ≡ first_free_short_addr m.node_idx euid)
      × (n.slot_id ≡ (new_entry now euid role m.node_idx i).slot_id)
unfolding new_node
new_node-buffer now utc euid role k i m ltk lt small =
    rw (get_or-set_self m.nodes_to_save k _ zero_node ltk)
      (rw (mod-eq_of_lt {n = i} {m = 256} (omega arith)) (refl, refl, refl, refl))

-- A free entry has address 0xffff, so a new node does not get that one.
new_addr-Occupied :
    (t : List NodeIdx) (euid i : ℕ)
    → i < length t
    → (entry t i).addr ≡ 0xffff
    → first_free_short_addr t euid ≢ 0xffff
new_addr-Occupied t euid i lt free e = elim (first_free_short_addr_lem t euid (omega arith)) [
  | inl z ↦ omega arith
  | inr (unused, _, _) ↦ unused i lt (free ∙ sym e)
]

known_node-Agrees :
    (now euid role k i : ℕ) (m : Master)
    → length m.node_idx ≤ 256
    → k < length m.nodes_to_save
    → i < length m.node_idx
    → Occupied (entry m.node_idx i)
    → (entry m.node_idx i).euid ≡ euid
    → let m' = known_node now role k i m in Agrees euid m' (buffer m' k)
known_node-Agrees now euid role k i m small ltk lt occ same =
    let (at, id, addr, slot) = known_node-buffer now role k i m ltk lt small in
    written euid _ _ m.node_idx i (known_entry now role m.node_idx (entry m.node_idx i)) lt
      (known_node-node_idx now role k i m lt small) at (id ∙ same) occ same (sym addr) (sym slot)

new_node-Agrees :
    (now utc euid role k i : ℕ) (m : Master)
    → length m.node_idx ≤ 256
    → k < length m.nodes_to_save
    → i < length m.node_idx
    → (entry m.node_idx i).addr ≡ 0xffff
    → let m' = new_node now utc euid role k i m in Agrees euid m' (buffer m' k)
new_node-Agrees now utc euid role k i m small ltk lt free =
    let (at, id, addr, slot) = new_node-buffer now utc euid role k i m ltk lt small in
    written euid _ _ m.node_idx i (new_entry now euid role m.node_idx i) lt
      (new_node-node_idx now utc euid role k i m lt) at id
      (new_addr-Occupied m.node_idx euid i lt free) refl (sym addr) (sym slot)

pub in_reserve :
    (k j euid : ℕ) (m : Master)
    → k < length m.nodes_to_save
    → k < length (reserve j euid m).nodes_to_save
in_reserve k j euid m lt =
    omega (arith, length-set m.nodes_to_save j (record (buffer m j) { euid = euid }))

Outcome-Agrees :
    {now utc euid role : ℕ} {m : Master} {r : ℕ × Option ℕ × Master} (k : ℕ)
    → length m.node_idx ≤ 256
    → Outcome now utc euid role m r
    → r.1 ≡ some k
    → Agrees euid r.2 (buffer r.2 k)
Outcome-Agrees k small busy e = absurd (ground arith)
Outcome-Agrees k small (full k' ltk h) e = absurd (ground arith)
Outcome-Agrees {now = now} {euid = euid} {role = role} {m = m} k small (known k' i ltk lt occ same)
      e =
    subst
      (λ j. let m' = known_node now role k' i (reserve k' euid m) in Agrees euid m' (buffer m' j))
      (some-injective k' k e)
      (known_node-Agrees now euid role k' i (reserve k' euid m) small (in_reserve k' k' euid m ltk)
        lt occ same)
Outcome-Agrees {now = now} {utc = utc} {euid = euid} {role = role} {m = m} k small
      (fresh k' i ltk lt free _) e =
    subst
      (λ j.
        let m' = new_node now utc euid role k' i (reserve k' euid m) in
        Agrees euid m' (buffer m' j))
      (some-injective k' k e)
      (new_node-Agrees now utc euid role k' i (reserve k' euid m) small
        (in_reserve k' k' euid m ltk) lt free)

-- If a node comes back, it is the node of the id, and the index holds its address and slot under
-- its index.
pub idx_find_node-Agrees :
    (locked : Bool) (now utc euid role k : ℕ) (m : Master)
    → length m.node_idx ≤ 256
    → (idx_find_node locked now utc euid role m).1 ≡ some k
    → let m' = (idx_find_node locked now utc euid role m).2 in Agrees euid m' (buffer m' k)
idx_find_node-Agrees locked now utc euid role k m small e =
    Outcome-Agrees k small (idx_find_node-Outcome locked now utc euid role m) e
