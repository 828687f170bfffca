-- ===== src/Panmaster/Flash/Sort.antt =====
-- `panm_fcb_sort` saves each node in use once, by rising address, and numbers them.
use mathlib.Core.List.{Perm}
use mathlib.Core.List.Perm
use mathlib.Core.Path.{subst}
use native.Mathlib.Decide.{ℕ_discrete}
use uwb_core.Common.{
  ℕ, zero, suc, ◌+◌, ◌≤◌, ◌<◌, ◌≡◌, ◌≢◌, refl, true, false, List, [], ◌∷◌, map, arith, ◌==◌, length,
  length-set, get_or-set_self, get_or-set_ne, set, replicate, u8, Bool-cases, inl, inr,
}
use uwb_core.Panmaster.Types.{Node, zero_node}
use uwb_core.Panmaster.Flash.{find_lowest, sort_from, sort_load, sorted, filled_node}
use uwb_core.Panmaster.Flash.Lowest.{at, Lowest, find_lowest-Lowest}
use uwb_core.Panmaster.Flash.Taken.{unplaced, in_use, in_use-take, length-in_use-take}
use uwb_core.Panmaster.Flash.Small.{Small, Small-at, Small-filled, length-filled, sort_load-Small}

-- Each address is a 16-bit one and, if in use, not below `low`.
abbrev Above : ℕ → List Node → Type 0
Above low nodes =
    (j : ℕ)
    → j < length nodes
    → ((at nodes j).addr < 0x10000) × ((at nodes j).addr ≢ 0xffff → low ≤ (at nodes j).addr)

in_use-nil : (nodes : List Node) → Above 0xffff nodes → in_use nodes ≡ []
in_use-nil [] a = refl
in_use-nil (n ∷ nodes) a = elim (Bool-cases (n.addr == 0xffff)) [
  | inl free ↦ rw free (in_use-nil nodes (λ j lt. a (suc j) (omega arith)))
  | inr used ↦
      let (small, high) = a 0 (omega arith) in
      absurd (omega (arith, high (ground arith), (let ne : n.addr ≢ 0xffff = ground arith in ne)))
]

-- Addresses do not fall, from `low` on, and the numbers run from `index` on, in eight bits.
abbrev pub Ascending : ℕ → List Node → Type 0
Ascending low [] = Unit {0}
Ascending low (n ∷ ns) = (low ≤ n.addr) × Ascending n.addr ns

abbrev pub Numbered : ℕ → List Node → Type 0
Numbered index [] = Unit {0}
Numbered index (n ∷ ns) = (n.index ≡ u8 index) × Numbered (index + 1) ns

record IsSorted (index low : ℕ) (nodes out : List Node) : Type 0 where
  same_nodes : Perm (map unplaced out) (in_use nodes)
  ascending : Ascending low out
  numbered : Numbered index out

Above-set :
    (low j : ℕ) (n : Node) (nodes : List Node)
    → n.addr ≡ 0xffff
    → ((j : ℕ) → j < length nodes → (at nodes j).addr < 0x10000)
    → ((j : ℕ) → j < length nodes → (at nodes j).addr ≢ 0xffff → low ≤ (at nodes j).addr)
    → Above low (set nodes j n)
Above-set low j n nodes gone small above k lt = elim (ℕ_discrete j k) [
  | yes here ↦
      rw (← here, get_or-set_self nodes j n zero_node (omega (arith, length-set nodes j n)))
        (omega arith, (λ occ. absurd (occ gone)))
  | no other ↦
      rw (get_or-set_ne nodes j k n zero_node other) (
        small k (omega (arith, length-set nodes j n)),
        above k (omega (arith, length-set nodes j n)),
      )
]

picked-IsSorted :
    (index low j : ℕ) (nodes rest : List Node)
    → j < length nodes
    → (at nodes j).addr ≢ 0xffff
    → low ≤ (at nodes j).addr
    → IsSorted
        (index + 1)
        (at nodes j).addr
        (set nodes j (record (at nodes j) { addr = 0xffff; index = u8 index }))
        rest
    → IsSorted index low nodes (record (at nodes j) { index = u8 index } ∷ rest)
picked-IsSorted index low j nodes rest lt occ le h = record {
  same_nodes =
      Perm.trans (Perm.cons _ h.same_nodes) (Perm.symm (in_use-take nodes j (u8 index) lt occ));
  ascending = (le, h.ascending);
  numbered = (refl, h.numbered);
}

none-IsSorted :
    (index low : ℕ) (nodes : List Node) → in_use nodes ≡ [] → IsSorted index low nodes []
none-IsSorted index low nodes e = record {
  same_nodes = rw e (Perm.refl []);
  ascending = tt;
  numbered = tt;
}

length_zero : (ns : List Node) → length ns ≤ 0 → ns ≡ []
length_zero [] h = refl
length_zero (n ∷ ns) h = absurd (omega arith)

sort_from-IsSorted :
    (index k low : ℕ) (nodes : List Node)
    → length (in_use nodes) ≤ k
    → Above low nodes
    → IsSorted index low nodes (sort_from index k nodes)
unfolding sort_from
sort_from-IsSorted index zero low nodes few above =
    none-IsSorted index low nodes (length_zero (in_use nodes) few)
sort_from-IsSorted index (suc k) low nodes few above = elim (Bool-cases (found.0 == 0xffff)) [
  | inl e ↦
      rw (e, sort_from)
        (none-IsSorted index low nodes (
          in_use-nil nodes
            (λ j lt. ((above j lt).0, (λ occ. omega (arith, lowest.below_all j lt occ, full e))))))
  | inr e ↦ elim lowest.from [
    | inl (is_full, _) ↦ absurd (omega (arith, is_full, not_full e))
    | inr (j, lt, at_is, addr, ne) ↦
        let occ : (at nodes j).addr ≢ 0xffff = omega (arith, addr, ne) in
        rw (e, sort_from)
          (subst
            (λ x. IsSorted index low nodes (
              record (at nodes x) { index = u8 index }
              ∷ sort_from (index + 1) k
                  (set nodes x (record (at nodes x) { addr = 0xffff; index = u8 index }))))
            (omega (arith, at_is))
            (picked-IsSorted index low j nodes _ lt occ ((above j lt).1 occ) (
              sort_from-IsSorted (index + 1) k (at nodes j).addr
                (set nodes j (record (at nodes j) { addr = 0xffff; index = u8 index }))
                (omega (arith, length-in_use-take nodes j (u8 index) lt occ))
                (Above-set (at nodes j).addr j _ nodes refl (λ i le. (above i le).0)
                  (λ i le used. omega (arith, lowest.below_all i le used, addr))))))
  ]
]
  where
    found : ℕ × ℕ
    found = find_lowest 0xffff 0 0 nodes

    lowest : Lowest 0xffff 0 0 nodes found
    lowest = find_lowest-Lowest 0xffff 0 0 nodes

    full : (found.0 == 0xffff) ≡ true → found.0 ≡ 0xffff
    full e = ground arith

    not_full : (found.0 == 0xffff) ≡ false → found.0 ≢ 0xffff
    not_full e = ground arith

length-in_use : (nodes : List Node) → length (in_use nodes) ≤ length nodes
length-in_use [] = omega arith
length-in_use (n ∷ nodes) = ground (arith, length-in_use nodes)

-- The sort saves each node in use of the loaded table exactly once and nothing else, by addresses
-- that do not fall, and numbers them from 0, in eight bits.
pub sorted_lem :
    (size : ℕ) (stored : List Node)
    → Small stored
    → let out = sorted size stored in
      Perm (map unplaced out) (in_use (sort_load (replicate size filled_node) stored))
      × Ascending 0 out
      × Numbered 0 out
unfolding sorted
sorted_lem size stored small =
    let nodes = sort_load (replicate size filled_node) stored in
    let (low, same) =
      sort_load-Small (replicate size filled_node) stored (Small-filled size) small in
    let r =
      sort_from-IsSorted 0 size 0 nodes
        (omega (arith, length-in_use nodes, same, length-filled size))
        (λ j lt. (Small-at nodes j low lt, (λ _. omega arith))) in
    (r.same_nodes, r.ascending, r.numbered)
