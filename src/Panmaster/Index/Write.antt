-- ===== src/Panmaster/Index/Write.antt =====
-- What `panmaster_idx_find_node` does to the state, in its four outcomes.
use uwb_core.Common.{
  ℕ, ◌%◌, ◌≤◌, ◌<◌, ◌≡◌, ◌≢◌, refl, sym, Bool, true, false, not, ◌&&◌, Option, none, some, List,
  arith, length, get_or, set, set-set, set-get_or, get_or-set_self, find_idx?, find_idx?-some,
  find_idx?-none, ◌==◌, ltb, if◌then◌else◌, Option-cases, inl, inr, u8,
}
use native.Mathlib.Nat.{mod-eq_of_lt}
use uwb_core.Panmaster.Types.{Node, NodeIdx, Master, zero_entry, zero_node}
use uwb_core.Panmaster.Address.{first_free_short_addr}
use uwb_core.Panmaster.Slot.{first_free_slot_id}
use uwb_core.Panmaster.Index.{
  entry, is_free, find_first_empty_nodes_to_save, find_euid, known_node, new_node, place,
  idx_find_node,
}
use uwb_core.Panmaster.Index.Apart.{Occupied}

-- The entry that a known node is left with.
abbrev pub slot_of : ℕ → ℕ → List NodeIdx → NodeIdx → ℕ
slot_of now role t e = if e.has_perm_slot then e.slot_id else first_free_slot_id now e.addr role t

abbrev pub asks_new_role : ℕ → NodeIdx → Bool
asks_new_role role e = not (e.role % 16 == role) && ltb 0 role

abbrev pub known_entry : ℕ → ℕ → List NodeIdx → NodeIdx → NodeIdx
known_entry now role t e = record e {
  slot_id = slot_of now role t e;
  save_needed = if asks_new_role role e then true else e.save_needed;
}

-- Two writes to the entry, each on its condition, are one.
two_writes :
    (perm new_role : Bool) (t : List NodeIdx) (i x : ℕ)
    → i < length t
    → let e = entry t i in
      let slot = if perm then e.slot_id else x in
      let u = if perm then t else set t i (record e { slot_id = slot }) in
      (if new_role then set u i (record (entry u i) { save_needed = true }) else u)
      ≡ set t i
          (record e { slot_id = slot; save_needed = if new_role then true else e.save_needed })
two_writes true true t i x lt = refl
two_writes true false t i x lt = sym (set-get_or t i zero_entry)
two_writes false true t i x lt = rw (set-set, get_or-set_self t i _ zero_entry lt)
two_writes false false t i x lt = refl

pub known_node-node_idx :
    (now role k i : ℕ) (m : Master)
    → i < length m.node_idx
    → length m.node_idx ≤ 256
    → (known_node now role k i m).node_idx
      ≡ set m.node_idx i (known_entry now role m.node_idx (entry m.node_idx i))
unfolding known_node
known_node-node_idx now role k i m lt small = rw (mod-eq_of_lt {n = i} {m = 256} (omega arith)) (
    two_writes e.has_perm_slot (asks_new_role role e) m.node_idx i
      (first_free_slot_id now e.addr role m.node_idx) lt)
  where
    e : NodeIdx
    e = entry m.node_idx i

-- The entry that a new node gets.
abbrev pub named_entry : ℕ → ℕ → List NodeIdx → NodeIdx → NodeIdx
named_entry euid role t e = record e {
  addr = first_free_short_addr t euid;
  euid = euid;
  role = u8 role;
}

abbrev pub new_entry : ℕ → ℕ → ℕ → List NodeIdx → ℕ → NodeIdx
new_entry now euid role t i =
    let e = named_entry euid role t (entry t i) in
    record e { slot_id = first_free_slot_id now e.addr role (set t i e); save_needed = true }

pub new_node-node_idx :
    (now utc euid role k i : ℕ) (m : Master)
    → i < length m.node_idx
    → (new_node now utc euid role k i m).node_idx
      ≡ set m.node_idx i (new_entry now euid role m.node_idx i)
unfolding new_node
new_node-node_idx now utc euid role k i m lt =
    rw (set-set, get_or-set_self m.node_idx i _ zero_entry lt)

-- The buffer `k` is taken for the id.
abbrev pub reserve : ℕ → ℕ → Master → Master
reserve k euid m = record m {
  nodes_to_save =
      set m.nodes_to_save k (record (get_or m.nodes_to_save k zero_node) { euid = euid });
}

-- Without a free buffer nothing changes. With one, the node is known, or it is new and gets a free
-- entry, or the index is full.
pub data Outcome (now utc euid role : ℕ) (m : Master) : ℕ × Option ℕ × Master → Type 0 where
  busy : Outcome now utc euid role m (1, none, m)
  known :
      (k i : ℕ)
      → k < length m.nodes_to_save
      → i < length m.node_idx
      → Occupied (entry m.node_idx i)
      → (entry m.node_idx i).euid ≡ euid
      → Outcome now utc euid role m (0, some k, known_node now role k i (reserve k euid m))
  fresh :
      (k i : ℕ)
      → k < length m.nodes_to_save
      → i < length m.node_idx
      → (entry m.node_idx i).addr ≡ 0xffff
      → ((j : ℕ)
          → j < length m.node_idx
          → Occupied (entry m.node_idx j)
          → (entry m.node_idx j).euid ≢ euid)
      → Outcome now utc euid role m (0, some k, new_node now utc euid role k i (reserve k euid m))
  full :
      (k : ℕ)
      → k < length m.nodes_to_save
      → ((j : ℕ)
          → j < length m.node_idx
          → Occupied (entry m.node_idx j) × ((entry m.node_idx j).euid ≢ euid))
      → Outcome now utc euid role m (0, none, reserve k euid m)

module _ (euid : ℕ) (t : List NodeIdx) where
  find_euid-some :
      (i : ℕ)
      → find_euid euid t ≡ some i
      → (i < length t) × Occupied (entry t i) × ((entry t i).euid ≡ euid)
  unfolding find_euid
  find_euid-some i h = ground (arith, find_idx?-some _ t zero_entry h)

  find_euid-none :
      (j : ℕ)
      → find_euid euid t ≡ none
      → j < length t
      → Occupied (entry t j)
      → (entry t j).euid ≢ euid
  unfolding find_euid
  find_euid-none j h lt occ e = ground (arith, find_idx?-none _ t zero_entry j h lt)

find_first_empty-some :
    (locked : Bool) (euid : ℕ) (nodes : List Node) (r : ℕ × List Node)
    → find_first_empty_nodes_to_save locked euid nodes ≡ some r
    → (r.0 < length nodes)
      × (r.1 ≡ set nodes r.0 (record (get_or nodes r.0 zero_node) { euid = euid }))
unfolding find_first_empty_nodes_to_save
find_first_empty-some true euid nodes r h = absurd (ground arith)
find_first_empty-some false euid nodes r h =
    elim (Option-cases (find_idx? (λ (n : Node). n.euid == 0) nodes)) [
      | inl e ↦ absurd (ground arith)
      | inr (k, e) ↦ let lt = find_idx?-some _ nodes zero_node e in ground arith
    ]

place-Outcome :
    (now utc euid role k : ℕ) (m : Master)
    → k < length m.nodes_to_save
    → Outcome now utc euid role m (place now utc euid role (reserve k euid m) k)
unfolding place
place-Outcome now utc euid role k m lt = elim (Option-cases (find_euid euid m.node_idx)) [
  | inr (i, e) ↦
      let (le, occ, same) = find_euid-some euid m.node_idx i e in
      rw (e, place) (known k i lt le occ same)
  | inl e ↦ elim (Option-cases (find_idx? is_free m.node_idx)) [
    | inr (i, f) ↦
        let (le, free) = find_idx?-some is_free m.node_idx zero_entry f in
        rw (e, place)
          (rw (f, place) (fresh k i lt le (ground arith) (λ j. find_euid-none euid m.node_idx j e)))
    | inl f ↦
        rw (e, place)
          (rw (f, place)
            (full k lt (λ j le.
              let occ = find_idx?-none is_free m.node_idx zero_entry j f le in
              let occ' : Occupied (entry m.node_idx j) = ground arith in
              (occ', find_euid-none euid m.node_idx j e le occ'))))
  ]
]

-- Each call has one of the four outcomes.
pub idx_find_node-Outcome :
    (locked : Bool) (now utc euid role : ℕ) (m : Master)
    → Outcome now utc euid role m (idx_find_node locked now utc euid role m)
unfolding idx_find_node
idx_find_node-Outcome locked now utc euid role m =
    elim (Option-cases (find_first_empty_nodes_to_save locked euid m.nodes_to_save)) [
      | inl e ↦ rw (e, idx_find_node) busy
      | inr ((k, nodes), e) ↦
          let (lt, same) = find_first_empty-some locked euid m.nodes_to_save (k, nodes) e in
          rw (e, idx_find_node) (rw same (place-Outcome now utc euid role k m lt))
    ]
