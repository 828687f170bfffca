-- ===== src/Panmaster/Nodes/Update.antt =====
-- What an update, an addition and a deletion leave in the log and in the index.
use uwb_core.Common.{
  ◌++◌, [], ◌∷◌, ◌==◌, if◌then◌else◌, ℕ, ◌<◌, ◌≤◌, ◌≡◌, ◌≢◌, refl, sym, ap, ◌∙◌, false, Option,
  none, some, List, arith, length, length-set, get_or-set_self, get_or-set_ne, set, Bool-cases,
  Option-cases, inl, inr, find_idx?, find_idx?-some, lt→ltb, ne→==,
}
use mathlib.Core.Bool.{false≢true}
use native.Mathlib.Decide.{ℕ_discrete}
use native.Mathlib.Nat.{mod-eq_of_lt}
use uwb_core.Panmaster.Types.{Node, NodeIdx, Master, flags, zero_entry, node_default}
use uwb_core.Panmaster.Index.{entry, is_free}
use uwb_core.Panmaster.Store.{Store, latest, latest-append, find_node, by_euid, find_node-latest}
use uwb_core.Panmaster.Nodes.{
  World, is_reset, euid_of_bytes, save_needed, indexed, save_node, update_node, add_node,
}

-- The record has what an update compares: version, first contact, address, flags and index.
pub record SameFields (r n : Node) : Type 0 where
  pub same_ver : r.fw_ver ≡ n.fw_ver
  pub same_seen : r.first_seen_utc ≡ n.first_seen_utc
  pub same_addr : r.addr ≡ n.addr
  pub same_flags : flags r ≡ flags n
  pub same_index : r.index ≡ n.index

same_fields : (old n : Node) → save_needed (some old) n ≡ false → SameFields old n
same_fields old n h = ground arith

module _ (st : Store) (l : st.Log) (m : Master) (n : Node) where
  -- The outcome of an update: the newest record of the node's id has its fields, and the newest
  -- records of the other ids are kept.
  pub record Updated (w : World st) : Type 0 where
    pub stored : (r : Node) × (latest n.euid (st.load w.0) ≡ some r) × SameFields r n
    pub others : (euid : ℕ) → euid ≢ n.euid → latest euid (st.load w.0) ≡ latest euid (st.load l)

  -- This save puts the record behind all others.
  abbrev pub Appends : Type 0
  Appends = st.load (st.save l n).1 ≡ st.load l ++ (n ∷ [])

  saved-latest :
      (euid : ℕ)
      → Appends
      → latest euid (st.load (st.save l n).1)
        ≡ (if euid == n.euid then some n else latest euid (st.load l))
  saved-latest euid last = ap (latest euid) last ∙ latest-append (st.load l) n euid

  saved-Updated : (m' : Master) → Appends → Updated ((st.save l n).1, m')
  saved-Updated m' last = record {
    stored = (
      n,
      saved-latest n.euid last ∙ ground arith,
      record {
        same_ver = refl;
        same_seen = refl;
        same_addr = refl;
        same_flags = refl;
        same_index = refl;
      },
    );
    others = λ euid ne. saved-latest euid last ∙ ground arith;
  }

  kept-Updated :
      n.euid ≢ 0 → save_needed (find_node (by_euid n.euid) (st.load l)) n ≡ false → Updated (l, m)
  kept-Updated nz keep = elim (Option-cases (latest n.euid (st.load l))) [
    | inl e ↦ absurd (false≢true (sym keep ∙ ap (λ o. save_needed o n) (found ∙ e)))
    | inr (r, e) ↦ record {
      stored = (r, e, same_fields r n (sym (ap (λ o. save_needed o n) (found ∙ e)) ∙ keep));
      others = λ euid ne. refl;
    }
  ]
    where
      found : find_node (by_euid n.euid) (st.load l) ≡ latest n.euid (st.load l)
      found = find_node-latest n.euid (st.load l) nz

  -- An update of a node whose id is not 0 and whose index is inside the table returns, and where a
  -- save puts the record last, the newest record of the id has the node's version, first contact,
  -- address, flags and index, whether a write was needed or not; the newest records of all other ids
  -- are kept.
  pub update_node-Updated :
      n.euid ≢ 0
      → n.index < length m.node_idx
      → Appends
      → (w : World st) × (update_node st n.euid n (l, m) ≡ some w) × Updated w
  unfolding update_node save_node
  update_node-Updated nz lt last = elim (Bool-cases (save_needed old n)) [
    | inl write ↦ (
      ((st.save l n).1, indexed n m),
      rw write (rw (lt→ltb n.index (length m.node_idx) lt)),
      saved-Updated (indexed n m) last,
    )
    | inr keep ↦ ((l, m), rw keep, kept-Updated nz keep)
  ]
    where
      old : Option Node
      old = find_node (by_euid n.euid) (st.load l)

set-euid :
    (t : List NodeIdx) (i j : ℕ) (e : NodeIdx)
    → e.euid ≡ (entry t i).euid
    → i < length t
    → (entry (set t i e) j).euid ≡ (entry t j).euid
set-euid t i j e same lt = elim (ℕ_discrete i j) [
  | yes here ↦ rw (← here) (rw (get_or-set_self t i e zero_entry lt) same)
  | no other ↦ rw (get_or-set_ne t i j e zero_entry other)
]

-- Adding a node whose id the log does not know gives its address to the first free entry and writes
-- no id to the index: each entry keeps the id that it had, so a request of the new node does not
-- find it there.
pub add_node-euid :
    (st : Store) (utc short_addr i : ℕ) (bytes : List ℕ) (l : st.Log) (m : Master)
    → short_addr ≢ 0
    → is_reset bytes ≡ false
    → find_node (by_euid (euid_of_bytes bytes)) (st.load l) ≡ none
    → find_idx? is_free m.node_idx ≡ some i
    → length m.node_idx ≤ 256
    → (w : World st) × (add_node st utc short_addr bytes (l, m) ≡ some w)
      × ((entry w.1.node_idx i).addr ≡ short_addr)
      × ((j : ℕ) → (entry w.1.node_idx j).euid ≡ (entry m.node_idx j).euid)
unfolding add_node save_node
add_node-euid st utc short_addr i bytes l m used given unknown free small = (
  ((st.save l n).1, indexed n m'),
  rw (ne→== short_addr 0 used, given, unknown)
      (rw (free, mod-eq_of_lt {n = i} {m = 256} (omega (arith, lt)))
        (rw (lt→ltb i (length m'.node_idx) (omega (arith, len, lt))))),
  rw (get_or-set_self m'.node_idx i _ zero_entry (omega (arith, len, lt)))
      (rw (get_or-set_self m.node_idx i _ zero_entry lt)),
  (λ j.
      set-euid m'.node_idx i j _ refl (omega (arith, len, lt))
      ∙ set-euid m.node_idx i j (record (entry m.node_idx i) { addr = short_addr }) refl lt),
)
  where
    lt : i < length m.node_idx
    lt = (find_idx?-some is_free m.node_idx zero_entry free).0

    n : Node
    n = record node_default {
      euid = euid_of_bytes bytes;
      addr = short_addr;
      first_seen_utc = utc;
      index = i;
    }

    m' : Master
    m' = record m {
      node_idx = set m.node_idx i (record (entry m.node_idx i) { addr = short_addr });
    }

    len : length m'.node_idx ≡ length m.node_idx
    len = length-set m.node_idx i _
