-- ===== src/Panmaster/Flash/Small.antt =====
-- The table that `panm_fcb_sort` loads holds 16-bit addresses.
use uwb_core.Common.{
  ℕ, zero, suc, ◌<◌, ◌≡◌, refl, ap, ◌∙◌, List, [], ◌∷◌, arith, ltb, length, length-set, set,
  replicate, Bool-cases, inl, inr,
}
use uwb_core.Panmaster.Types.{Node}
use uwb_core.Panmaster.Flash.{sort_load, sort_nodes_load_cb, filled_node}
use uwb_core.Panmaster.Flash.Lowest.{at}

-- every address is a 16-bit one
abbrev pub Small : List Node → Type 0
Small [] = Unit {0}
Small (n ∷ ns) = (n.addr < 0x10000) × Small ns

pub Small-at : (ns : List Node) (j : ℕ) → Small ns → j < length ns → (at ns j).addr < 0x10000
Small-at [] j s lt = absurd (omega arith)
Small-at (n ∷ ns) zero s lt = s.0
Small-at (n ∷ ns) (suc j) s lt = Small-at ns j s.1 (omega arith)

Small-set : (ns : List Node) (j : ℕ) (n : Node) → Small ns → n.addr < 0x10000 → Small (set ns j n)
Small-set [] j n s h = tt
Small-set (m ∷ ns) zero n s h = (h, s.1)
Small-set (m ∷ ns) (suc j) n s h = (s.0, Small-set ns j n s.1 h)

pub Small-filled : (k : ℕ) → Small (replicate k filled_node)
Small-filled zero = tt
Small-filled (suc k) = (omega arith, Small-filled k)

pub length-filled : (k : ℕ) → length (replicate k filled_node) ≡ k
length-filled zero = refl
length-filled (suc k) = ap suc (length-filled k)

pub sort_load-Small :
    (nodes stored : List Node)
    → Small nodes
    → Small stored
    → Small (sort_load nodes stored) × (length (sort_load nodes stored) ≡ length nodes)
unfolding sort_load sort_nodes_load_cb
sort_load-Small nodes [] s h = (s, refl)
sort_load-Small nodes (n ∷ ns) s h = elim (Bool-cases (ltb n.index (length nodes))) [
  | inl e ↦
      rw (e, sort_load)
        (let (small, same) =
            sort_load-Small (set nodes n.index n) ns (Small-set nodes n.index n s h.0) h.1 in
          (small, same ∙ length-set nodes n.index n))
  | inr e ↦ rw (e, sort_load) (sort_load-Small nodes ns s h.1)
]
