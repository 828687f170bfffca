-- ===== src/Panmaster/Index/Keep.antt =====
-- `panmaster_idx_find_node` keeps ids, addresses and slots apart.
use uwb_core.Common.{
  ℕ, ◌≤◌, ◌<◌, ◌≡◌, ◌≢◌, refl, sym, ◌∙◌, Bool, Option, List, arith, length, length-set,
  get_or-set_ne, set, Bool-cases, inl, inr,
}
use native.Mathlib.Nat.{mod-eq_of_lt}
use uwb_core.Panmaster.Types.{NodeIdx, Master, zero_entry}
use uwb_core.Panmaster.Address.{first_free_short_addr}
use uwb_core.Panmaster.Address.Fresh.{first_free_short_addr_lem}
use uwb_core.Panmaster.Slot.{first_free_slot_id}
use uwb_core.Panmaster.Slot.Free.{Holds, first_free_slot_id_lem}
use uwb_core.Panmaster.Index.{entry, idx_find_node}
use uwb_core.Panmaster.Index.Apart.{
  Apart, Apart-set, Each, Each-set, Occupied, DifferEuid, DifferAddr, DifferSlot, Yields,
  Yields-DifferSlot,
}
use uwb_core.Panmaster.Index.Write.{
  known_entry, known_node-node_idx, new_entry, named_entry, new_node-node_idx, reserve, slot_of,
  Outcome, busy, known, fresh, full, idx_find_node-Outcome,
}

-- A relation is kept if the entry that a known node is left with, and the one that a new node gets,
-- stand in it to all others.
module _ (R : NodeIdx → NodeIdx → Type 0) (now utc euid role : ℕ) (m : Master)
    (small : length m.node_idx ≤ 256) (old : Apart R m.node_idx)
    (known_keeps : (i j : ℕ)
      → i < length m.node_idx
      → j < length m.node_idx
      → j ≢ i
      → (entry m.node_idx i).euid ≡ euid
      → Occupied (entry m.node_idx i)
      → let e = known_entry now role m.node_idx (entry m.node_idx i) in
        R (entry m.node_idx j) e × R e (entry m.node_idx j))
    (new_keeps : (i j : ℕ)
      → i < length m.node_idx
      → j < length m.node_idx
      → j ≢ i
      → (Occupied (entry m.node_idx j) → (entry m.node_idx j).euid ≢ euid)
      → let e = new_entry now euid role m.node_idx i in
        R (entry m.node_idx j) e × R e (entry m.node_idx j)) where
  Outcome-Apart : {r : ℕ × Option ℕ × Master} → Outcome now utc euid role m r → Apart R r.2.node_idx
  Outcome-Apart busy = old
  Outcome-Apart (known k i ltk lt occ same) =
      rw (known_node-node_idx now role k i (reserve k euid m) lt small)
        (Apart-set R m.node_idx i _ lt (λ j ltj ne. known_keeps i j lt ltj ne same occ) old)
  Outcome-Apart (fresh k i ltk lt free none_has) =
      rw (new_node-node_idx now utc euid role k i (reserve k euid m) lt)
        (Apart-set R m.node_idx i _ lt (λ j ltj ne. new_keeps i j lt ltj ne (none_has j ltj)) old)
  Outcome-Apart (full k ltk h) = old

-- The role on record is the one that `role_of` gives for the id.
abbrev pub HasRole : (ℕ → ℕ) → NodeIdx → Type 0
HasRole role_of n = Occupied n → n.role ≡ role_of n.euid

Outcome-HasRole :
    (role_of : ℕ → ℕ)
    → {now utc euid role : ℕ} {m : Master} {r : ℕ × Option ℕ × Master} → length m.node_idx ≤ 256
    → role < 256
    → role ≡ role_of euid
    → Each (HasRole role_of) m.node_idx
    → Outcome now utc euid role m r
    → Each (HasRole role_of) r.2.node_idx
Outcome-HasRole role_of small lt fits old busy = old
Outcome-HasRole role_of small lt fits old (full k ltk h) = old
Outcome-HasRole role_of {now = now} {euid = euid} {role = role} {m = m} small lt fits old
      (known k i ltk lti occ same) =
    rw (known_node-node_idx now role k i (reserve k euid m) lti small)
      (Each-set (HasRole role_of) m.node_idx i _ lti (old i lti) old)
Outcome-HasRole role_of {now = now} {utc = utc} {euid = euid} {role = role} {m = m} small lt fits
      old (fresh k i ltk lti free h) =
    rw (new_node-node_idx now utc euid role k i (reserve k euid m) lti)
      (Each-set (HasRole role_of) m.node_idx i _ lti (λ _. mod-eq_of_lt lt ∙ fits) old)

pub idx_find_node-HasRole :
    (role_of : ℕ → ℕ) (locked : Bool) (now utc euid : ℕ) (m : Master)
    → length m.node_idx ≤ 256
    → role_of euid < 256
    → Each (HasRole role_of) m.node_idx
    → Each (HasRole role_of) (idx_find_node locked now utc euid (role_of euid) m).2.node_idx
idx_find_node-HasRole role_of locked now utc euid m small lt old =
    Outcome-HasRole role_of small lt refl old
      (idx_find_node-Outcome locked now utc euid (role_of euid) m)

-- No id gets a second entry.
pub idx_find_node-DifferEuid :
    (locked : Bool) (now utc euid role : ℕ) (m : Master)
    → length m.node_idx ≤ 256
    → Apart DifferEuid m.node_idx
    → Apart DifferEuid (idx_find_node locked now utc euid role m).2.node_idx
idx_find_node-DifferEuid locked now utc euid role m small old =
    Outcome-Apart DifferEuid now utc euid role m small old
      (λ i j lt ltj ne _ _. (old j i ltj lt ne, old i j lt ltj (λ e. ne (sym e))))
      (λ i j lt ltj ne none_has. ((λ occ _ e. none_has occ e), (λ _ occ e. none_has occ (sym e))))
      (idx_find_node-Outcome locked now utc euid role m)

-- No address but 0 is given twice.
pub idx_find_node-DifferAddr :
    (locked : Bool) (now utc euid role : ℕ) (m : Master)
    → length m.node_idx ≤ 256
    → Apart DifferAddr m.node_idx
    → Apart DifferAddr (idx_find_node locked now utc euid role m).2.node_idx
idx_find_node-DifferAddr locked now utc euid role m small old =
    Outcome-Apart DifferAddr now utc euid role m small old
      (λ i j lt ltj ne _ _. (old j i ltj lt ne, old i j lt ltj (λ e. ne (sym e))))
      (λ i j lt ltj ne _. (
        (λ _ _ nz e. new_differs j i lt ltj (λ z. nz (e ∙ z)) e),
        (λ _ _ nz e. new_differs j i lt ltj nz (sym e)),
      ))
      (idx_find_node-Outcome locked now utc euid role m)
  where
    new_differs :
        (j i : ℕ)
        → i < length m.node_idx
        → j < length m.node_idx
        → first_free_short_addr m.node_idx euid ≢ 0
        → (entry m.node_idx j).addr ≢ first_free_short_addr m.node_idx euid
    new_differs j i lt ltj nz = elim (first_free_short_addr_lem m.node_idx euid (omega arith)) [
      | inl z ↦ absurd (nz z)
      | inr (unused, _, _) ↦ unused j ltj
    ]

-- The role asked for is one that an entry can hold, and the one on record if the id is known.
pub record RoleFits (euid role : ℕ) (t : List NodeIdx) : Type 0 where
  pub small : role < 256
  pub on_record :
      (i : ℕ)
      → i < length t
      → Occupied (entry t i)
      → (entry t i).euid ≡ euid
      → (entry t i).role ≡ role

module _ (now euid role : ℕ) (t : List NodeIdx) (small : length t ≤ 256)
    (fits : RoleFits euid role t) (old : Apart (DifferSlot now) t) (i j : ℕ) (lt : i < length t)
    (ltj : j < length t) (ne : j ≢ i) where
  pub known_entry-Yields :
      (entry t i).euid ≡ euid
      → Occupied (entry t i)
      → Yields now (entry t j) (known_entry now role t (entry t i))
  known_entry-Yields same occ = elim (Bool-cases e.has_perm_slot) [
    | inl perm ↦
        let kept : slot_of now role t e ≡ e.slot_id = rw perm in
        λ o r a k q. old j i ltj lt ne o occ r a k (inr perm) (q ∙ kept)
    | inr leased ↦
        let chosen : slot_of now role t e ≡ first_free_slot_id now e.addr role t = rw leased in
        λ o r a k q.
          (first_free_slot_id_lem now e.addr role t (omega arith)).1 j ltj
            (o, r ∙ fits.on_record i lt occ same, q ∙ chosen, a, k)
  ]
    where
      e : NodeIdx
      e = entry t i

  pub new_entry-Yields : Yields now (entry t j) (new_entry now euid role t i)
  new_entry-Yields o r a k q = free (o, r ∙ mod-eq_of_lt fits.small, q, a, k)
    where
      e : NodeIdx
      e = named_entry euid role t (entry t i)

      free : ¬ Holds now e.addr role (first_free_slot_id now e.addr role (set t i e)) (entry t j)
      free = rw (get_or-set_ne t i j e zero_entry (λ s. ne (sym s))) at (
          (first_free_slot_id_lem now e.addr role (set t i e) (omega (arith, length-set t i e))).1 j
            (omega (arith, length-set t i e)))

-- No slot is used by two nodes of one role with different addresses: a permanent slot and one on a
-- lease that runs stay their owner's.
pub idx_find_node-DifferSlot :
    (locked : Bool) (now utc euid role : ℕ) (m : Master)
    → length m.node_idx ≤ 256
    → RoleFits euid role m.node_idx
    → Apart (DifferSlot now) m.node_idx
    → Apart (DifferSlot now) (idx_find_node locked now utc euid role m).2.node_idx
idx_find_node-DifferSlot locked now utc euid role m small fits old =
    Outcome-Apart (DifferSlot now) now utc euid role m small old
      (λ i j lt ltj ne same occ.
        Yields-DifferSlot now (entry m.node_idx j)
          (known_entry now role m.node_idx (entry m.node_idx i))
          (known_entry-Yields now euid role m.node_idx small fits old i j lt ltj ne same occ))
      (λ i j lt ltj ne _.
        Yields-DifferSlot now (entry m.node_idx j) (new_entry now euid role m.node_idx i)
          (new_entry-Yields now euid role m.node_idx small fits old i j lt ltj ne))
      (idx_find_node-Outcome locked now utc euid role m)
