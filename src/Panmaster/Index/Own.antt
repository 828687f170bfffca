-- ===== src/Panmaster/Index/Own.antt =====
-- The slot that a call hands out is nobody else's.
use uwb_core.Common.{
  ℕ, ◌≤◌, ◌<◌, ◌≡◌, ◌≢◌, sym, ap, ◌∙◌, Bool, Option, some, List, arith, length, length-set,
  get_or-set_ne, get_or-set_self, set,
}
use mathlib.Core.Path.{subst, subst₂}
use mathlib.Core.Option.{some-injective}
use uwb_core.Panmaster.Types.{NodeIdx, Master, zero_entry}
use uwb_core.Panmaster.Index.{entry, idx_find_node, known_node, new_node}
use uwb_core.Panmaster.Index.Apart.{Apart, DifferSlot, Yields}
use uwb_core.Panmaster.Index.Answer.{buffer, known_node-buffer, new_node-buffer, in_reserve}
use uwb_core.Panmaster.Index.Keep.{RoleFits, known_entry-Yields, new_entry-Yields}
use uwb_core.Panmaster.Index.Write.{
  known_entry, known_node-node_idx, new_entry, new_node-node_idx, reserve, Outcome, busy, known,
  fresh, full, idx_find_node-Outcome,
}

-- the node at index `at` has a slot that no other keeps
abbrev pub Owns : ℕ → List NodeIdx → ℕ → Type 0
Owns now t at = (j : ℕ) → j < length t → j ≢ at → Yields now (entry t j) (entry t at)

set-Owns :
    (now : ℕ) (t u : List NodeIdx) (i at : ℕ) (e : NodeIdx)
    → i < length t
    → u ≡ set t i e
    → at ≡ i
    → ((j : ℕ) → j < length t → j ≢ i → Yields now (entry t j) e)
    → Owns now u at
set-Owns now t u i at e lt w here y j ltj ne =
    subst₂ (Yields now) (sym kept) (sym placed)
      (y j (omega (arith, ap length w, length-set t i e)) other)
  where
    other : j ≢ i
    other s = ne (s ∙ sym here)

    kept : entry u j ≡ entry t j
    kept = rw w (get_or-set_ne t i j e zero_entry (λ s. other (sym s)))

    placed : entry u at ≡ e
    placed = rw (w, here) (get_or-set_self t i e zero_entry lt)

Outcome-Owns :
    {now utc euid role : ℕ} {m : Master} {r : ℕ × Option ℕ × Master} (k : ℕ)
    → length m.node_idx ≤ 256
    → RoleFits euid role m.node_idx
    → Apart (DifferSlot now) m.node_idx
    → Outcome now utc euid role m r
    → r.1 ≡ some k
    → Owns now r.2.node_idx (buffer r.2 k).index
Outcome-Owns k small fits old busy e = absurd (ground arith)
Outcome-Owns k small fits old (full k' ltk h) e = absurd (ground arith)
Outcome-Owns {now = now} {euid = euid} {role = role} {m = m} k small fits old
      (known k' i ltk lt occ same) e =
    subst (λ x. Owns now m'.node_idx (buffer m' x).index) (some-injective k' k e)
      (set-Owns now m.node_idx m'.node_idx i _
        (known_entry now role m.node_idx (entry m.node_idx i)) lt
        (known_node-node_idx now role k' i (reserve k' euid m) lt small)
        (known_node-buffer now role k' i (reserve k' euid m) (in_reserve k' k' euid m ltk) lt
          small).0
        (λ j ltj ne.
          known_entry-Yields now euid role m.node_idx small fits old i j lt ltj ne same occ))
  where
    m' : Master
    m' = known_node now role k' i (reserve k' euid m)
Outcome-Owns {now = now} {utc = utc} {euid = euid} {role = role} {m = m} k small fits old
      (fresh k' i ltk lt free _) e =
    subst (λ x. Owns now m'.node_idx (buffer m' x).index) (some-injective k' k e)
      (set-Owns now m.node_idx m'.node_idx i _ (new_entry now euid role m.node_idx i) lt
        (new_node-node_idx now utc euid role k' i (reserve k' euid m) lt)
        (new_node-buffer now utc euid role k' i (reserve k' euid m) (in_reserve k' k' euid m ltk) lt
          small).0
        (λ j ltj ne. new_entry-Yields now euid role m.node_idx small fits old i j lt ltj ne))
  where
    m' : Master
    m' = new_node now utc euid role k' i (reserve k' euid m)

-- The slot of the node that comes back is used by no other node of its role, with another address,
-- that has it for good or on a lease that runs.
pub idx_find_node-Owns :
    (locked : Bool) (now utc euid role k : ℕ) (m : Master)
    → length m.node_idx ≤ 256
    → RoleFits euid role m.node_idx
    → Apart (DifferSlot now) m.node_idx
    → (idx_find_node locked now utc euid role m).1 ≡ some k
    → let m' = (idx_find_node locked now utc euid role m).2 in
      Owns now m'.node_idx (buffer m' k).index
idx_find_node-Owns locked now utc euid role k m small fits old e =
    Outcome-Owns k small fits old (idx_find_node-Outcome locked now utc euid role m) e
