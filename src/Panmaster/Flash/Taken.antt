-- ===== src/Panmaster/Flash/Taken.antt =====
-- The nodes of a table that are in use, with one taken out.
use mathlib.Core.List.{Perm}
use mathlib.Core.List.Perm
use uwb_core.Common.{
  ℕ, zero, suc, ◌<◌, ◌≡◌, ◌≢◌, ap, List, [], ◌∷◌, arith, ◌==◌, if◌then◌else◌, length, set,
  Bool-cases, inl, inr, ne→==,
}
use uwb_core.Panmaster.Types.{Node}
use uwb_core.Panmaster.Flash.Lowest.{at}

-- The nodes in use, without their places.
abbrev pub unplaced : Node → Node
unplaced n = record n { index = 0 }

abbrev pub in_use : List Node → List Node
in_use [] = []
in_use (n ∷ nodes) = let rest = in_use nodes in if n.addr == 0xffff then rest else unplaced n ∷ rest

-- Taking one out.
pub in_use-take :
    (nodes : List Node) (j index : ℕ)
    → j < length nodes
    → (at nodes j).addr ≢ 0xffff
    → let n = record (at nodes j) { index = index } in
      Perm (in_use nodes) (unplaced n ∷ in_use (set nodes j (record n { addr = 0xffff })))
in_use-take [] j index lt occ = absurd (omega arith)
in_use-take (n ∷ nodes) zero index lt occ = rw (ne→== n.addr 0xffff occ) (Perm.refl _)
in_use-take (n ∷ nodes) (suc j) index lt occ = elim (Bool-cases (n.addr == 0xffff)) [
  | inl free ↦ rw free (in_use-take nodes j index (omega arith) occ)
  | inr used ↦
      rw used
        (Perm.trans (Perm.cons _ (in_use-take nodes j index (omega arith) occ)) (Perm.swap _ _ _))
]

pub length-in_use-take :
    (nodes : List Node) (j index : ℕ)
    → j < length nodes
    → (at nodes j).addr ≢ 0xffff
    → length (in_use nodes)
      ≡ suc (length (in_use (set nodes j (record (at nodes j) { addr = 0xffff; index = index }))))
length-in_use-take [] j index lt occ = absurd (omega arith)
length-in_use-take (n ∷ nodes) zero index lt occ = rw (ne→== n.addr 0xffff occ)
length-in_use-take (n ∷ nodes) (suc j) index lt occ = elim (Bool-cases (n.addr == 0xffff)) [
  | inl free ↦ rw free (length-in_use-take nodes j index (omega arith) occ)
  | inr used ↦ rw used (ap suc (length-in_use-take nodes j index (omega arith) occ))
]
