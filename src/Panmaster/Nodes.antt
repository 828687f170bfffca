-- ===== src/Panmaster/Nodes.antt =====
-- The functions of panmaster.c that keep the stored nodes and the index in step.
pub mod Update
pub mod Pending
pub mod Listing
use uwb_core.Common.{
  ℕ, zero, suc, ◌+◌, ◌*◌, Bool, true, false, not, ◌&&◌, ◌||◌, Option, none, some, List, [], ◌∷◌,
  ◌==◌, ltb, leb, if◌then◌else◌, length, get_or, set, any, find_idx?, u8, map,
}
use mathlib.Core.Option
use uwb_core.PanUtils.{Version}
use uwb_core.Panmaster.Types.{
  Node, NodeIdx, Master, flags, zero_node, node_default, node_idx_default,
}
use uwb_core.Panmaster.Index.{entry, is_free}
use uwb_core.Panmaster.Store.{Store, find_node, by_euid}

abbrev pub version_eq : Version → Version → Bool
version_eq v w =
    (v.iv_major == w.iv_major)
    && (v.iv_minor == w.iv_minor)
    && (v.iv_revision == w.iv_revision)
    && (v.iv_build_num == w.iv_build_num)

-- the loop body: `if (… == 0xffff) continue; if (… > addr || addr == 0xffff) addr = …;`
unfoldable pub higher : ℕ → ℕ → ℕ
higher addr a = if a == 0xffff then addr else if ltb addr a || (addr == 0xffff) then a else addr

unfoldable pub highest_from : ℕ → List NodeIdx → ℕ
highest_from addr [] = addr
highest_from addr (n ∷ ns) = highest_from (higher addr n.addr) ns

unfoldable pub highest_node_addr : List NodeIdx → ℕ
highest_node_addr t = highest_from 0xffff t

-- the eight bytes of an id, little endian
unfoldable pub euid_of_bytes : List ℕ → ℕ
euid_of_bytes [] = 0
euid_of_bytes (b ∷ bs) = b + 256 * euid_of_bytes bs

-- `for (i…; i<sizeof(uint64_t)&&rc; …) if (euid_u8[i]!=0xff) rc = 0;`
abbrev pub is_reset : List ℕ → Bool
is_reset bytes = not (any (λ b. not (b == 0xff)) bytes)

-- "Make sure index is up to date"
abbrev pub indexed : Node → Master → Master
indexed n m = record m {
  node_idx =
      set m.node_idx n.index
        (record (entry m.node_idx n.index) { role = n.role; has_perm_slot = n.has_perm_slot });
}

-- The comparison of `panmaster_update_node`.
abbrev pub save_needed : Option Node → Node → Bool
save_needed none n = true
save_needed (some old) n =
    not (version_eq n.fw_ver old.fw_ver)
    || not (n.first_seen_utc == old.first_seen_utc)
    || not (n.addr == old.addr)
    || not (flags n == flags old)
    || not (n.index == old.index)

module _ (st : Store) where
  -- The log and the master's memory.
  abbrev pub World : Type 0
  World = st.Log × Master

  -- Writes the role and the slot flag to the index, then the node to the log. `none` is a write
  -- outside the index, whose length the code does not check.
  unfoldable pub save_node : Node → World → Option (Bool × World)
  save_node n (l, m) =
      if ltb n.index (length m.node_idx)
      then some ((st.save l n).0, ((st.save l n).1, indexed n m))
      else none

  unfoldable pub update_node : ℕ → Node → World → Option World
  update_node euid n (l, m) =
      if save_needed (find_node (by_euid euid) (st.load l)) n
      then Option.map (λ r. r.1) (save_node n (l, m))
      else some (l, m)

  unfoldable pub add_version : ℕ → Version → World → Option World
  add_version euid ver (l, m) = elim (find_node (by_euid euid) (st.load l)) [
    | none ↦ some (l, m)
    | some n ↦
        if version_eq ver n.fw_ver
        then some (l, m)
        else Option.map (λ r. r.1) (save_node (record n { fw_ver = ver }) (l, m))
  ]

  -- one buffer of `panmaster_postprocess`
  unfoldable pub flush : ℕ → World → Option World
  flush i (l, m) =
      let n = get_or m.nodes_to_save i zero_node in
      if n.euid == 0
      then some (l, m)
      else Option.map
          (λ (w : World). (w.0, record w.1 { nodes_to_save = set w.1.nodes_to_save i zero_node }))
          (update_node n.euid n (l, m))

  -- its loop, with the rounds left
  unfoldable pub flush_from : ℕ → ℕ → World → Option World
  flush_from i zero w = some w
  flush_from i (suc k) w = elim (flush i w) [ none ↦ none | some w' ↦ flush_from (i + 1) k w' ]

  -- No other task takes a buffer while the mutex is released.
  unfoldable pub postprocess : World → Option World
  postprocess (l, m) = flush_from 0 (length m.nodes_to_save) (l, m)

  unfoldable pub add_node : ℕ → ℕ → List ℕ → World → Option World
  add_node utc short_addr bytes (l, m) =
      if (short_addr == 0) || is_reset bytes
      then some (l, m)
      else elim (find_node (by_euid (euid_of_bytes bytes)) (st.load l)) [
        | some n ↦
            if n.addr == short_addr
            then some (l, m)
            else some ((st.save l (record n { addr = short_addr })).1, m)
        | none ↦ elim (find_idx? is_free m.node_idx) [
          | none ↦ some (l, m)
          | some i ↦
              Option.map (λ r. r.1)
                (save_node
                  (record node_default {
                    euid = euid_of_bytes bytes;
                    addr = short_addr;
                    first_seen_utc = utc;
                    index = u8 i;
                  })
                  (
                    l,
                    record m {
                      node_idx =
                          set m.node_idx i (record (entry m.node_idx i) { addr = short_addr });
                    },
                  ))
        ]
      ]

  unfoldable pub delete_node : ℕ → World → Option World
  delete_node euid (l, m) = elim (find_node (by_euid euid) (st.load l)) [
    | none ↦ some (l, m)
    | some n ↦
        if leb (length m.node_idx) n.index || not ((entry m.node_idx n.index).addr == n.addr)
        then some (l, m)
        else Option.map (λ r. r.1)
            (save_node (record n { addr = 0xffff })
              (
                l,
                record m {
                  node_idx = set m.node_idx n.index (record (entry m.node_idx n.index) {
                    addr = 0xffff;
                    euid = 0xffffffffffffffff;
                    slot_id = 0xffff;
                    has_perm_slot = false;
                  });
                },
              ))
  ]

  unfoldable pub clear_list : World → World
  clear_list (l, m) = (st.clear l, record m { node_idx = map node_idx_default m.node_idx })
