-- ===== src/Panmaster/Slot/Free.antt =====
-- What `first_free_slot_id` promises: the least slot that nobody holds.
use uwb_core.Common.{
  ℕ, zero, suc, ◌+◌, ◌≤◌, ◌<◌, ◌≡◌, ◌≢◌, refl, Bool, true, false, List, [], ◌∷◌, map, arith, any,
  any-true, any-false, get_or, ◌⊎◌, ◌%◌, length, length-map, contains, pigeonhole, Bool-cases, inl,
  inr,
}
use native.Mathlib.Decide.{ℕ_discrete}
use uwb_core.Panmaster.Types.{NodeIdx, zero_entry}
use uwb_core.Panmaster.Slot.{slot_taken, slot_search, first_free_slot_id, slot_lease_expired}

-- The lease has no end yet, or its end is not before `now`, as signed 32-bit numbers.
abbrev pub Runs : ℕ → NodeIdx → Type 0
Runs now n =
    (n.lease_ends ≡ 0)
    ⊎ ((now + 2147483648) % 4294967296 ≤ (n.lease_ends + 2147483648) % 4294967296)

-- Another node, of this role, has the slot, for good or on a lease that runs.
abbrev pub Holds : ℕ → ℕ → ℕ → ℕ → NodeIdx → Type 0
Holds now node_addr role slot n =
    (n.addr ≢ 0xffff)
    × (n.role ≡ role)
    × (n.slot_id ≡ slot)
    × (n.addr ≢ node_addr)
    × (Runs now n ⊎ (n.has_perm_slot ≡ true))

module _ (now node_addr role slot : ℕ) (n : NodeIdx) where
  Holds-slot_taken : slot_taken now node_addr role slot n ≡ true → Holds now node_addr role slot n
  unfolding slot_taken slot_lease_expired
  Holds-slot_taken h = ground arith

  not_Holds-slot_taken :
      slot_taken now node_addr role slot n ≡ false → ¬ Holds now node_addr role slot n
  unfolding slot_taken slot_lease_expired
  not_Holds-slot_taken h (occupied, same_role, same_slot, other, held) = ground arith

module _ (now node_addr role : ℕ) (t : List NodeIdx) where
  abbrev pub taken : ℕ → Bool
  taken slot = any (slot_taken now node_addr role slot) t

  -- The loop stops at a slot that is not taken, or after all its rounds.
  slot_search-not_taken :
      (k slot : ℕ)
      → slot_search now node_addr role t slot k ≢ 0xffff
      → taken (slot_search now node_addr role t slot k) ≡ false
  unfolding slot_search
  slot_search-not_taken zero slot h = absurd (h refl)
  slot_search-not_taken (suc k) slot h = elim (Bool-cases (taken slot)) [
    | inl e ↦ rw e (slot_search-not_taken k (slot + 1) (rw e at h))
    | inr e ↦ rw e e
  ]

  slot_search-least :
      (k slot s : ℕ)
      → slot + k ≡ 0xffff
      → slot ≤ s
      → s < slot_search now node_addr role t slot k
      → taken s ≡ true
  unfolding slot_search
  slot_search-least zero slot s e h lt = absurd (omega arith)
  slot_search-least (suc k) slot s e h lt = elim (Bool-cases (taken slot)) [
    | inl b ↦ elim (ℕ_discrete slot s) [
      | yes same ↦ rw (← same) b
      | no other ↦
          slot_search-least k (slot + 1) s (omega arith) (omega arith) (rw (b, slot_search) at lt)
    ]
    | inr b ↦ absurd (omega (arith, rw b at lt))
  ]

  -- the slots that are held, one for each entry
  taken-contains :
      (u : List NodeIdx) (slot : ℕ)
      → any (slot_taken now node_addr role slot) u ≡ true
      → contains slot (map (λ n. n.slot_id) u) ≡ true
  unfolding slot_taken
  taken-contains [] slot h = h
  taken-contains (n ∷ u) slot h = ground (arith, taken-contains u slot)

  -- The slots below the one found are held by different entries, so there are no more of them than
  -- entries.
  first_free_slot_id-le-length : first_free_slot_id now node_addr role t ≤ length t
  unfolding first_free_slot_id
  first_free_slot_id-le-length = rw (← length-map (λ n. n.slot_id) t) (
      pigeonhole (λ s. s) _ (map (λ n. n.slot_id) t) (λ j k lt _. omega arith)
        (λ s lt. taken-contains t s (slot_search-least 0xffff 0 s refl (omega arith) lt)))

  -- On a table of fewer than 65535 entries the search always finds a slot, at most the number of
  -- entries: no other node of the role holds it, for good or on a lease that runs, and each lower
  -- slot is held so.
  pub first_free_slot_id_lem :
      length t < 0xffff
      → let s = first_free_slot_id now node_addr role t in
        (s ≤ length t)
        × ((j : ℕ) → j < length t → ¬ Holds now node_addr role s (get_or t j zero_entry))
        × ((k : ℕ)
            → k < s
            → (j : ℕ) × (j < length t) × Holds now node_addr role k (get_or t j zero_entry))
  unfolding first_free_slot_id
  first_free_slot_id_lem h = (
    first_free_slot_id-le-length,
    (λ j lt. not_Holds-slot_taken now node_addr role _ _ (
        any-false _ t zero_entry j
          (slot_search-not_taken 0xffff 0 (omega (arith, first_free_slot_id-le-length))) lt)),
    (λ k lt.
        let (j, le, held) =
          any-true (slot_taken now node_addr role k) t zero_entry
            (slot_search-least 0xffff 0 k refl (omega arith) lt) in
        (j, le, Holds-slot_taken now node_addr role k _ held)),
  )
