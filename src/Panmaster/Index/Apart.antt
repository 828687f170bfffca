-- ===== src/Panmaster/Index/Apart.antt =====
-- Relations between the entries of an index, and what a write to one entry must show to keep them.
use uwb_core.Common.{
  ℕ, ◌<◌, ◌≡◌, ◌≢◌, ◌⊎◌, true, List, arith, length, length-set, get_or-set_self, get_or-set_ne, set,
  sym, ◌∙◌,
}
use mathlib.Core.Path.{subst, subst₂}
use native.Mathlib.Decide.{ℕ_discrete}
use uwb_core.Panmaster.Types.{NodeIdx, zero_entry}
use uwb_core.Panmaster.Slot.Free.{Runs}
use uwb_core.Panmaster.Index.{entry}

-- Any two different entries are related.
abbrev pub Apart : (NodeIdx → NodeIdx → Type 0) → List NodeIdx → Type 0
Apart R t = (i j : ℕ) → i < length t → j < length t → i ≢ j → R (entry t i) (entry t j)

pub Apart-set :
    (R : NodeIdx → NodeIdx → Type 0) (t : List NodeIdx) (i : ℕ) (e : NodeIdx)
    → i < length t
    → ((j : ℕ) → j < length t → j ≢ i → R (entry t j) e × R e (entry t j))
    → Apart R t
    → Apart R (set t i e)
Apart-set R t i e lt new old j k ltj ltk ne = elim (ℕ_discrete j i) [
  | yes same ↦
      subst₂ R (sym (get_or-set_here same)) (sym (kept k (λ e'. ne (same ∙ sym e'))))
        (new k (in_old ltk) (λ e'. ne (same ∙ sym e'))).1
  | no other ↦ elim (ℕ_discrete k i) [
    | yes same ↦
        subst₂ R (sym (kept j other)) (sym (get_or-set_here same)) (new j (in_old ltj) other).0
    | no other' ↦
        subst₂ R (sym (kept j other)) (sym (kept k other')) (old j k (in_old ltj) (in_old ltk) ne)
  ]
]
  where
    in_old : {m : ℕ} → m < length (set t i e) → m < length t
    in_old h = omega (arith, length-set t i e)

    kept : (m : ℕ) → m ≢ i → entry (set t i e) m ≡ entry t m
    kept m h = get_or-set_ne t i m e zero_entry (λ e'. h (sym e'))

    get_or-set_here : {m : ℕ} → m ≡ i → entry (set t i e) m ≡ e
    get_or-set_here h = rw h (get_or-set_self t i e zero_entry lt)

-- Each entry has the property.
abbrev pub Each : (NodeIdx → Type 0) → List NodeIdx → Type 0
Each P t = (i : ℕ) → i < length t → P (entry t i)

pub Each-set :
    (P : NodeIdx → Type 0) (t : List NodeIdx) (i : ℕ) (e : NodeIdx)
    → i < length t
    → P e
    → Each P t
    → Each P (set t i e)
Each-set P t i e lt new old j ltj = elim (ℕ_discrete i j) [
  | yes same ↦ subst P (sym (rw (← same) (get_or-set_self t i e zero_entry lt))) new
  | no other ↦
      subst P (sym (get_or-set_ne t i j e zero_entry other))
        (old j (omega (arith, length-set t i e)))
]

-- What a node may rely on: its id is in one entry only, its address too unless it is 0, and no other
-- node of its role uses its slot.
abbrev pub Occupied : NodeIdx → Type 0
Occupied n = n.addr ≢ 0xffff

abbrev pub DifferEuid : NodeIdx → NodeIdx → Type 0
DifferEuid a b = Occupied a → Occupied b → a.euid ≢ b.euid

abbrev pub DifferAddr : NodeIdx → NodeIdx → Type 0
DifferAddr a b = Occupied a → Occupied b → a.addr ≢ 0 → a.addr ≢ b.addr

-- The slot is a permanent one, or its lease runs.
abbrev pub Keeps : ℕ → NodeIdx → Type 0
Keeps now n = Runs now n ⊎ (n.has_perm_slot ≡ true)

abbrev pub DifferSlot : ℕ → NodeIdx → NodeIdx → Type 0
DifferSlot now a b =
    Occupied a
    → Occupied b
    → a.role ≡ b.role
    → a.addr ≢ b.addr
    → Keeps now a
    → Keeps now b
    → a.slot_id ≢ b.slot_id

-- What a slot's new owner needs of another node, whatever its own lease.
abbrev pub Yields : ℕ → NodeIdx → NodeIdx → Type 0
Yields now a b =
    Occupied a → a.role ≡ b.role → a.addr ≢ b.addr → Keeps now a → a.slot_id ≢ b.slot_id

pub Yields-DifferSlot :
    (now : ℕ) (a b : NodeIdx) → Yields now a b → DifferSlot now a b × DifferSlot now b a
Yields-DifferSlot now a b y = (
  (λ oa ob r d ka kb. y oa r d ka),
  (λ ob oa r d kb ka e. y oa (sym r) (λ s. d (sym s)) ka (sym e)),
)
