-- ===== src/Panmaster/Nodes/Pending.antt =====
-- `panmaster_postprocess`, and a request on a full index.
use uwb_core.Common.{
  ℕ, zero, suc, ◌+◌, ◌<◌, ◌≡◌, ◌≢◌, refl, sym, ap, ◌∙◌, false, none, some, List, [], ◌∷◌, arith,
  ◌==◌, length, length-set, get_or, get_or-set_self, get_or-set_ne, set, Bool-cases, inl, inr,
  lt→ltb, ne→==, find_idx?, find_idx?-some,
}
use native.Mathlib.Decide.{ℕ_discrete, dec_lt}
use uwb_core.Panmaster.Types.{Node, NodeIdx, Master, zero_entry, zero_node}
use uwb_core.Panmaster.Index.{
  entry, is_free, idx_find_node, place, find_euid, find_first_empty_nodes_to_save,
}
use uwb_core.Panmaster.Index.Answer.{buffer}
use uwb_core.Panmaster.Index.Write.{reserve}
use uwb_core.Panmaster.Store.{Store, latest, find_node, by_euid, find_node-latest}
use uwb_core.Panmaster.Nodes.{
  World, indexed, save_needed, save_node, update_node, flush, flush_from, postprocess,
}

-- Every buffer in use names an entry of the index.
abbrev pub InRange : Master → Type 0
InRange m = (k : ℕ) → (buffer m k).euid ≢ 0 → (buffer m k).index < length m.node_idx

-- What the request itself does.
full_index :
    (now utc euid role k : ℕ) (m : Master)
    → find_euid euid m.node_idx ≡ none
    → find_idx? is_free m.node_idx ≡ none
    → find_idx? (λ n. n.euid == 0) m.nodes_to_save ≡ some k
    → idx_find_node false now utc euid role m ≡ (0, none, reserve k euid m)
unfolding idx_find_node place find_first_empty_nodes_to_save
full_index now utc euid role k m new full free =
    rw (free, idx_find_node) (rw (new, place) (rw (full, place)))

module _ (st : Store) where
  -- A flush of one buffer returns: it empties that buffer alone, and the index keeps its length.
  record Flushed (i : ℕ) (m : Master) (w : World st) : Type 0 where
    emptied : i < length m.nodes_to_save → (buffer w.1 i).euid ≡ 0
    kept : (k : ℕ) → k ≢ i → buffer w.1 k ≡ buffer m k
    same_buffers : length w.1.nodes_to_save ≡ length m.nodes_to_save
    same_index : length w.1.node_idx ≡ length m.node_idx

  update_node-buffers :
      (euid : ℕ) (n : Node) (l : st.Log) (m : Master)
      → n.index < length m.node_idx
      → (w : World st) × (update_node st euid n (l, m) ≡ some w)
        × (w.1.nodes_to_save ≡ m.nodes_to_save)
        × (length w.1.node_idx ≡ length m.node_idx)
  unfolding update_node save_node
  update_node-buffers euid n l m lt =
      elim (Bool-cases (save_needed (find_node (by_euid euid) (st.load l)) n)) [
        | inl write ↦ (
          ((st.save l n).1, indexed n m),
          rw write (rw (lt→ltb n.index (length m.node_idx) lt)),
          refl,
          length-set m.node_idx n.index _,
        )
        | inr keep ↦ ((l, m), rw keep, refl, refl)
      ]

  emptied-Flushed :
      (i : ℕ) (l : st.Log) (m m' : Master)
      → m'.nodes_to_save ≡ m.nodes_to_save
      → length m'.node_idx ≡ length m.node_idx
      → Flushed i m (l, record m' { nodes_to_save = set m'.nodes_to_save i zero_node })
  emptied-Flushed i l m m' same len = record {
    emptied = λ lt. rw (get_or-set_self m'.nodes_to_save i zero_node zero_node (rw same lt));
    kept = λ k ne.
        get_or-set_ne m'.nodes_to_save i k zero_node zero_node (λ s. ne (sym s))
        ∙ ap (λ b. get_or b k zero_node) same;
    same_buffers = length-set m'.nodes_to_save i zero_node ∙ ap length same;
    same_index = len;
  }

  flush-Flushed :
      (i : ℕ) (l : st.Log) (m : Master)
      → InRange m
      → (w : World st) × (flush st i (l, m) ≡ some w) × Flushed i m w
  unfolding flush
  flush-Flushed i l m inside = elim (Bool-cases ((buffer m i).euid == 0)) [
    | inl e ↦ (
      (l, m),
      rw e,
      record {
        emptied = λ _. ground arith;
        kept = λ k ne. refl;
        same_buffers = refl;
        same_index = refl;
      },
    )
    | inr e ↦
        let n = buffer m i in
        let (w, did, same, len) = update_node-buffers n.euid n l m (inside i (ground arith)) in
        (
          (w.0, record w.1 { nodes_to_save = set w.1.nodes_to_save i zero_node }),
          rw e (rw did),
          emptied-Flushed i w.0 m w.1 same len,
        )
  ]

  Flushed-InRange : (i : ℕ) (m : Master) (w : World st) → Flushed i m w → InRange m → InRange w.1
  Flushed-InRange i m w f inside k used = elim (ℕ_discrete k i) [
    | yes here ↦ elim (dec_lt i (length m.nodes_to_save)) [
      | yes lt ↦ absurd (used (rw here (f.emptied lt)))
      | no out ↦ absurd (used (rw here (beyond w.1.nodes_to_save i (rw f.same_buffers out))))
    ]
    | no other ↦ rw (f.same_index, f.kept k other) (inside k (rw (f.kept k other) at used))
  ]
    where
      beyond : (b : List Node) (i : ℕ) → ¬ (i < length b) → (get_or b i zero_node).euid ≡ 0
      beyond [] i out = refl
      beyond (n ∷ b) zero out = absurd (out (omega arith))
      beyond (n ∷ b) (suc i) out = beyond b i (omega arith)

  flush_from-empties :
      (i k : ℕ) (l : st.Log) (m : Master)
      → i + k ≡ length m.nodes_to_save
      → InRange m
      → ((j : ℕ) → j < i → (buffer m j).euid ≡ 0)
      → (w : World st) × (flush_from st i k (l, m) ≡ some w)
        × ((j : ℕ) → j < length m.nodes_to_save → (buffer w.1 j).euid ≡ 0)
  unfolding flush_from
  flush_from-empties i zero l m e inside done = ((l, m), refl, (λ j lt. done j (omega arith)))
  flush_from-empties i (suc k) l m e inside done =
      let (w, did, f) = flush-Flushed i l m inside in
      let (w', did', all) =
        flush_from-empties (i + 1) k w.0 w.1 (omega (arith, f.same_buffers))
          (Flushed-InRange i m w f inside) (still w f) in
      (w', rw (did, flush_from) did', (λ j lt. all j (omega (arith, f.same_buffers))))
    where
      still : (w : World st) → Flushed i m w → (j : ℕ) → j < i + 1 → (buffer w.1 j).euid ≡ 0
      still w f j lt = elim (ℕ_discrete j i) [
        | yes here ↦ rw here (f.emptied (omega arith))
        | no other ↦ rw (f.kept j other) (done j (omega arith))
      ]

  -- If each buffer in use names an entry of the index, then the pending nodes can be written: the
  -- call returns, and all buffers are free again.
  pub postprocess-empties :
      (l : st.Log) (m : Master)
      → InRange m
      → (w : World st) × (postprocess st (l, m) ≡ some w)
        × ((j : ℕ) → j < length m.nodes_to_save → (buffer w.1 j).euid ≡ 0)
  unfolding postprocess
  postprocess-empties l m inside =
      flush_from-empties 0 (length m.nodes_to_save) l m (omega arith) inside
        (λ j lt. absurd (omega arith))

  refused-flush :
      (euid k : ℕ) (l : st.Log) (m : Master)
      → euid ≢ 0
      → latest euid (st.load l) ≡ none
      → k < length m.nodes_to_save
      → buffer m k ≡ zero_node
      → 0 < length m.node_idx
      → (w : World st) × (flush st k (l, reserve k euid m) ≡ some w)
        × ((entry w.1.node_idx 0).role ≡ 0)
        × ((entry w.1.node_idx 0).has_perm_slot ≡ false)
        × ((entry w.1.node_idx 0).euid ≡ (entry m.node_idx 0).euid)
        × (w.0 ≡ (st.save l (record zero_node { euid = euid })).1)
  unfolding flush update_node save_node
  refused-flush euid k l m nz unknown ltk empty lt = (
    (
      (st.save l n).1,
      record m {
        node_idx = (indexed n m).node_idx;
        nodes_to_save =
            set (set m.nodes_to_save k (record (buffer m k) { euid = euid })) k zero_node;
      },
    ),
    rw (get_or-set_self m.nodes_to_save k _ zero_node ltk, empty)
        (rw (ne→== euid 0 nz, find_node-latest euid (st.load l) nz ∙ unknown)
          (rw (lt→ltb 0 (length m.node_idx) lt))),
    ap (λ (e : NodeIdx). e.role) here,
    ap (λ (e : NodeIdx). e.has_perm_slot) here,
    ap (λ (e : NodeIdx). e.euid) here,
    refl,
  )
    where
      n : Node
      n = record zero_node { euid = euid }

      here :
          entry (indexed n m).node_idx 0
          ≡ record (entry m.node_idx 0) { role = 0; has_perm_slot = false }
      here = get_or-set_self m.node_idx 0 _ zero_entry lt

  -- On a full index a request of an id that neither the index nor the log knows returns 0 and no
  -- node, but it keeps a buffer, which names entry 0: the next flush clears the role and the slot
  -- flag of that entry, which belongs to another node, and hands the storage a record of the id with
  -- index 0 and address 0.
  pub full_index-flush :
      (now utc euid role k : ℕ) (l : st.Log) (m : Master)
      → euid ≢ 0
      → latest euid (st.load l) ≡ none
      → find_euid euid m.node_idx ≡ none
      → find_idx? is_free m.node_idx ≡ none
      → find_idx? (λ n. n.euid == 0) m.nodes_to_save ≡ some k
      → buffer m k ≡ zero_node
      → 0 < length m.node_idx
      → let (rc, found, m') = idx_find_node false now utc euid role m in
        (rc ≡ 0)
        × (found ≡ none)
        × ((w : World st) × (flush st k (l, m') ≡ some w)
            × ((entry w.1.node_idx 0).role ≡ 0)
            × ((entry w.1.node_idx 0).has_perm_slot ≡ false)
            × ((entry w.1.node_idx 0).euid ≡ (entry m.node_idx 0).euid)
            × (w.0 ≡ (st.save l (record zero_node { euid = euid })).1))
  full_index-flush now utc euid role k l m nz unknown new full free empty lt =
      rw (full_index now utc euid role k m new full free) (
        refl,
        refl,
        refused-flush euid k l m nz unknown
            (find_idx?-some (λ (n : Node). n.euid == 0) m.nodes_to_save zero_node free).0 empty lt,
      )
