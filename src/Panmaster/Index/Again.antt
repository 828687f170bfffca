-- ===== src/Panmaster/Index/Again.antt =====
-- What later calls of `panmaster_idx_find_node` leave, and find again.
use uwb_core.Common.{
  ℕ, ◌≤◌, ◌<◌, ◌≡◌, refl, sym, ◌∙◌, ap, Bool, Option, some, List, arith, length, length-set,
  get_or-set_ne, get_or-set_self, set,
}
use native.Mathlib.Decide.{ℕ_discrete}
use uwb_core.Panmaster.Types.{NodeIdx, Master, zero_entry}
use uwb_core.Panmaster.Index.{entry, idx_find_node}
use uwb_core.Panmaster.Index.Apart.{Apart, Occupied, DifferEuid}
use uwb_core.Panmaster.Index.Keep.{idx_find_node-DifferEuid}
use uwb_core.Panmaster.Index.Write.{
  known_entry, known_node-node_idx, new_node-node_idx, reserve, Outcome, busy, known, fresh, full,
  idx_find_node-Outcome,
}
use uwb_core.Panmaster.Index.Answer.{Agrees, buffer, idx_find_node-Agrees}

-- An entry in use stays with its node: what a call may change is its slot and its `save_needed`.
pub record Stays (e e' : NodeIdx) : Type 0 where
  pub same_addr : e'.addr ≡ e.addr
  pub same_euid : e'.euid ≡ e.euid
  pub same_role : e'.role ≡ e.role
  pub same_perm : e'.has_perm_slot ≡ e.has_perm_slot
  pub same_lease : e'.lease_ends ≡ e.lease_ends

abbrev stays_refl : (e : NodeIdx) → Stays e e
stays_refl e = record {
  same_addr = refl;
  same_euid = refl;
  same_role = refl;
  same_perm = refl;
  same_lease = refl;
}

set-Stays :
    (t : List NodeIdx) (i j : ℕ) (e : NodeIdx)
    → i < length t
    → (i ≡ j → Stays (entry t i) e)
    → Stays (entry t j) (entry (set t i e) j)
set-Stays t i j e lt same = elim (ℕ_discrete i j) [
  | yes here ↦ rw (← here) (rw (get_or-set_self t i e zero_entry lt) (same here))
  | no other ↦ rw (get_or-set_ne t i j e zero_entry other) (stays_refl (entry t j))
]

Outcome-Stays :
    {now utc euid role : ℕ} {m : Master} {r : ℕ × Option ℕ × Master} (j : ℕ)
    → length m.node_idx ≤ 256
    → Outcome now utc euid role m r
    → Occupied (entry m.node_idx j)
    → Stays (entry m.node_idx j) (entry r.2.node_idx j)
Outcome-Stays {m = m} j small busy occ = stays_refl _
Outcome-Stays {m = m} j small (full k ltk h) occ = stays_refl _
Outcome-Stays {now = now} {euid = euid} {role = role} {m = m} j small (known k i ltk lt o same)
      occ =
    rw (known_node-node_idx now role k i (reserve k euid m) lt small) (
      set-Stays m.node_idx i j (known_entry now role m.node_idx (entry m.node_idx i)) lt (λ _.
        record {
          same_addr = refl;
          same_euid = refl;
          same_role = refl;
          same_perm = refl;
          same_lease = refl;
        }))
Outcome-Stays {now = now} {utc = utc} {euid = euid} {role = role} {m = m} j small
      (fresh k i ltk lt free h) occ =
    rw (new_node-node_idx now utc euid role k i (reserve k euid m) lt)
      (set-Stays m.node_idx i j _ lt (λ same. absurd (occ (rw (← same) free))))

-- Other calls, for any id, leave an entry in use to its node.
pub idx_find_node-Stays :
    (locked : Bool) (now utc euid role j : ℕ) (m : Master)
    → length m.node_idx ≤ 256
    → Occupied (entry m.node_idx j)
    → Stays (entry m.node_idx j) (entry (idx_find_node locked now utc euid role m).2.node_idx j)
idx_find_node-Stays locked now utc euid role j m small occ =
    Outcome-Stays j small (idx_find_node-Outcome locked now utc euid role m) occ

pub Outcome-length :
    {now utc euid role : ℕ} {m : Master} {r : ℕ × Option ℕ × Master}
    → length m.node_idx ≤ 256
    → Outcome now utc euid role m r
    → length r.2.node_idx ≡ length m.node_idx
Outcome-length small busy = refl
Outcome-length small (full k ltk h) = refl
Outcome-length {now = now} {euid = euid} {role = role} {m = m} small (known k i ltk lt o same) =
    rw (known_node-node_idx now role k i (reserve k euid m) lt small) (length-set m.node_idx i _)
Outcome-length {now = now} {utc = utc} {euid = euid} {role = role} {m = m} small
      (fresh k i ltk lt free h) =
    rw (new_node-node_idx now utc euid role k i (reserve k euid m) lt) (length-set m.node_idx i _)

-- From an index of at most 256 entries that has each id in one entry at most, if a request gives a
-- node and a second request of the same id, with any clocks, role and buffer, gives one too, then it
-- is at the same index with the same address.
pub idx_find_node_twice :
    (locked locked' : Bool) (now now' utc utc' euid role role' k k' : ℕ) (m : Master)
    → length m.node_idx ≤ 256
    → Apart DifferEuid m.node_idx
    → (idx_find_node locked now utc euid role m).1 ≡ some k
    → let m₁ = (idx_find_node locked now utc euid role m).2 in
      (idx_find_node locked' now' utc' euid role' m₁).1 ≡ some k'
      → let m₂ = (idx_find_node locked' now' utc' euid role' m₁).2 in
        ((buffer m₂ k').index ≡ (buffer m₁ k).index) × ((buffer m₂ k').addr ≡ (buffer m₁ k).addr)
idx_find_node_twice locked locked' now now' utc utc' euid role role' k k' m small apart e e' = (
  sym same_index,
  sym a₂.same_addr
      ∙ ap (λ i. (entry m₂.node_idx i).addr) (sym same_index)
      ∙ stays.same_addr
      ∙ a₁.same_addr,
)
  where
    m₁ : Master
    m₁ = (idx_find_node locked now utc euid role m).2

    m₂ : Master
    m₂ = (idx_find_node locked' now' utc' euid role' m₁).2

    len₁ : length m₁.node_idx ≡ length m.node_idx
    len₁ = Outcome-length small (idx_find_node-Outcome locked now utc euid role m)

    len₂ : length m₂.node_idx ≡ length m₁.node_idx
    len₂ =
        Outcome-length (omega (arith, len₁)) (idx_find_node-Outcome locked' now' utc' euid role' m₁)

    a₁ : Agrees euid m₁ (buffer m₁ k)
    a₁ = idx_find_node-Agrees locked now utc euid role k m small e

    a₂ : Agrees euid m₂ (buffer m₂ k')
    a₂ = idx_find_node-Agrees locked' now' utc' euid role' k' m₁ (omega (arith, len₁)) e'

    stays : Stays (entry m₁.node_idx (buffer m₁ k).index) (entry m₂.node_idx (buffer m₁ k).index)
    stays =
        idx_find_node-Stays locked' now' utc' euid role' (buffer m₁ k).index m₁
          (omega (arith, len₁)) a₁.occupied

    apart₂ : Apart DifferEuid m₂.node_idx
    apart₂ =
        idx_find_node-DifferEuid locked' now' utc' euid role' m₁ (omega (arith, len₁))
          (idx_find_node-DifferEuid locked now utc euid role m small apart)

    same_index : (buffer m₁ k).index ≡ (buffer m₂ k').index
    same_index = elim (ℕ_discrete (buffer m₁ k).index (buffer m₂ k').index) [
      | yes same ↦ same
      | no other ↦ absurd (
          apart₂ _ _ (omega (arith, len₂, a₁.inside)) a₂.inside other
            (λ z. a₁.occupied (sym stays.same_addr ∙ z)) a₂.occupied
            (stays.same_euid ∙ a₁.same_id ∙ sym a₂.same_id))
    ]
