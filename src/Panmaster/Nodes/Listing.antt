-- ===== src/Panmaster/Nodes/Listing.antt =====
-- `panmaster_highest_node_addr` against the addresses in use.
use uwb_core.Common.{
  ℕ, zero, suc, ◌≤◌, ◌<◌, ◌≡◌, ◌≢◌, ◌⊎◌, sym, ◌∙◌, Bool-cases, ne→==, inl, inr, refl, List, [], ◌∷◌,
  arith, ◌==◌, ltb, ◌||◌, length,
}
use native.Mathlib.Decide.{ℕ_discrete}
use uwb_core.Panmaster.Types.{NodeIdx}
use uwb_core.Panmaster.Index.{entry}
use uwb_core.Panmaster.Index.Apart.{Occupied}
use uwb_core.Panmaster.Nodes.{higher, highest_from, highest_node_addr}

-- What the loop has seen: nothing in use, or the address of an entry in use that is the largest.
record Highest (addr : ℕ) (t : List NodeIdx) (r : ℕ) : Type 0 where
  from : (r ≡ addr) ⊎ ((i : ℕ) × (i < length t) × Occupied (entry t i) × ((entry t i).addr ≡ r))
  start_below : addr ≢ 0xffff → (addr ≤ r) × (r ≢ 0xffff)
  all_below : (i : ℕ) → i < length t → Occupied (entry t i) → ((entry t i).addr ≤ r) × (r ≢ 0xffff)

module _ (addr a : ℕ) where
  higher-from : (higher addr a ≡ addr) ⊎ ((higher addr a ≡ a) × (a ≢ 0xffff))
  unfolding higher
  higher-from = elim (ℕ_discrete a 0xffff) [
    | yes e ↦ inl (ground arith)
    | no ne ↦ elim (Bool-cases (ltb addr a || (addr == 0xffff))) [
      | inl up ↦ inr (rw (ne→== a 0xffff ne, up), ne)
      | inr stay ↦ inl (rw (ne→== a 0xffff ne, stay))
    ]
  ]

  higher-start : addr ≢ 0xffff → (addr ≤ higher addr a) × (higher addr a ≢ 0xffff)
  unfolding higher
  higher-start ne = (ground arith, ground arith)

  higher-new : a ≢ 0xffff → (a ≤ higher addr a) × (higher addr a ≢ 0xffff)
  unfolding higher
  higher-new ne = (ground arith, ground arith)

highest_from-Highest : (addr : ℕ) (t : List NodeIdx) → Highest addr t (highest_from addr t)
unfolding highest_from
highest_from-Highest addr [] = record {
  from = inl refl;
  start_below = λ ne. (omega arith, ne);
  all_below = λ i lt. absurd (omega arith);
}
highest_from-Highest addr (n ∷ t) = step _ (highest_from-Highest (higher addr n.addr) t)
  where
    step : (r : ℕ) → Highest (higher addr n.addr) t r → Highest addr (n ∷ t) r
    step r h = record {
      from = elim h.from [
        | inr (i, lt, occ, e) ↦ inr (suc i, omega arith, occ, e)
        | inl e ↦ elim (higher-from addr n.addr) [
          | inl same ↦ inl (e ∙ same)
          | inr (up, occ) ↦ inr (0, omega arith, occ, sym (e ∙ up))
        ]
      ];
      start_below = λ ne.
          let (le, small) = higher-start addr n.addr ne in
          let (le', small') = h.start_below small in (omega arith, small');
      all_below = λ i.
          elim i
            as (λ i.
              i < length (n ∷ t)
              → Occupied (entry (n ∷ t) i)
              → ((entry (n ∷ t) i).addr ≤ r) × (r ≢ 0xffff)) [
                | zero ↦ λ lt occ.
                    let (le, small) = higher-new addr n.addr occ in
                    let (le', small') = h.start_below small in (omega arith, small')
                | suc j ↦ λ lt occ. h.all_below j (omega arith) occ
              ];
    }

-- The result is 0xffff only if no entry is in use, else the largest address of an entry in use.
pub highest_node_addr_lem :
    (t : List NodeIdx)
    → let r = highest_node_addr t in
      ((i : ℕ) → i < length t → Occupied (entry t i) → ((entry t i).addr ≤ r) × (r ≢ 0xffff))
      × (r ≢ 0xffff → (i : ℕ) × (i < length t) × Occupied (entry t i) × ((entry t i).addr ≡ r))
unfolding highest_node_addr
highest_node_addr_lem t =
    let h = highest_from-Highest 0xffff t in
    (h.all_below, (λ ne. elim h.from [ inl e ↦ absurd (ne e) | inr member ↦ member ]))
