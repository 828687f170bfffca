-- ===== src/Panmaster/Flash/Lowest.antt =====
-- The inner loop of `panm_fcb_sort` finds the lowest address in use.
use uwb_core.Common.{
  ℕ, zero, suc, ◌+◌, ◌≤◌, ◌<◌, ◌≡◌, ◌≢◌, ◌⊎◌, refl, sym, true, false, not, ◌&&◌, List, [], ◌∷◌,
  arith, ◌==◌, ltb, length, get_or, Bool-cases, inl, inr,
}
use uwb_core.Panmaster.Types.{Node, zero_node}
use uwb_core.Panmaster.Flash.{find_lowest}

abbrev pub at : List Node → ℕ → Node
at nodes i = get_or nodes i zero_node

-- What the inner loop finds, begun with `low` and `at₀` at place `i`.
pub record Lowest (low at₀ i : ℕ) (nodes : List Node) (r : ℕ × ℕ) : Type 0 where
  pub below_start : r.0 ≤ low
  pub below_all : (j : ℕ) → j < length nodes → (at nodes j).addr ≢ 0xffff → r.0 ≤ (at nodes j).addr
  pub from :
      ((r.0 ≡ low) × (r.1 ≡ at₀))
      ⊎ ((j : ℕ) × (j < length nodes) × (r.1 ≡ i + j) × ((at nodes j).addr ≡ r.0) × (r.0 ≢ 0xffff))

below_cons :
    (r : ℕ) (n : Node) (nodes : List Node)
    → (n.addr ≢ 0xffff → r ≤ n.addr)
    → ((j : ℕ) → j < length nodes → (at nodes j).addr ≢ 0xffff → r ≤ (at nodes j).addr)
    → (j : ℕ) → j < length (n ∷ nodes)
    → (at (n ∷ nodes) j).addr ≢ 0xffff
    → r ≤ (at (n ∷ nodes) j).addr
below_cons r n nodes first others zero lt occ = first occ
below_cons r n nodes first others (suc j) lt occ = others j (omega arith) occ

module _ (n : Node) (nodes : List Node) (low at₀ i : ℕ) (r : ℕ × ℕ) where
  taken-Lowest :
      (not (n.addr == 0xffff) && ltb n.addr low) ≡ true
      → Lowest n.addr i (i + 1) nodes r
      → Lowest low at₀ i (n ∷ nodes) r
  taken-Lowest e h = record {
    below_start = omega (arith, h.below_start, smaller);
    below_all = below_cons r.0 n nodes (λ _. h.below_start) h.below_all;
    from = elim h.from [
      | inl (low_is, at_is) ↦ inr (0, omega arith, omega arith, sym low_is, omega (arith, used))
      | inr (j, lt, at_is, addr, ne) ↦ inr (suc j, omega arith, omega arith, addr, ne)
    ];
  }
    where
      smaller : n.addr < low
      smaller = ground arith

      used : n.addr ≢ 0xffff
      used = ground arith

  passed-Lowest :
      (not (n.addr == 0xffff) && ltb n.addr low) ≡ false
      → Lowest low at₀ (i + 1) nodes r
      → Lowest low at₀ i (n ∷ nodes) r
  passed-Lowest e h = record {
    below_start = h.below_start;
    below_all =
        below_cons r.0 n nodes (λ occ. omega (arith, h.below_start, larger occ)) h.below_all;
    from = elim h.from [
      | inl same ↦ inl same
      | inr (j, lt, at_is, addr, ne) ↦ inr (suc j, omega arith, omega arith, addr, ne)
    ];
  }
    where
      larger : n.addr ≢ 0xffff → low ≤ n.addr
      larger occ = ground arith

pub find_lowest-Lowest :
    (low at₀ i : ℕ) (nodes : List Node) → Lowest low at₀ i nodes (find_lowest low at₀ i nodes)
unfolding find_lowest
find_lowest-Lowest low at₀ i [] = record {
  below_start = omega arith;
  below_all = λ j lt. absurd (omega arith);
  from = inl (refl, refl);
}
find_lowest-Lowest low at₀ i (n ∷ nodes) =
    elim (Bool-cases (not (n.addr == 0xffff) && ltb n.addr low)) [
      | inl e ↦
          rw (e, find_lowest)
            (taken-Lowest n nodes low at₀ i _ e (find_lowest-Lowest n.addr i (i + 1) nodes))
      | inr e ↦
          rw (e, find_lowest)
            (passed-Lowest n nodes low at₀ i _ e (find_lowest-Lowest low at₀ (i + 1) nodes))
    ]
