-- ===== src/Panmaster/Flash.antt =====
-- lib/panmaster/src/panmaster_fcb.c: the load callbacks, the load of the index, and the sort of the
-- stored nodes.
pub mod Load
pub mod Lowest
pub mod Taken
pub mod Small
pub mod Sort
use uwb_core.Common.{
  ℕ, zero, suc, ◌+◌, Bool, true, false, not, ◌&&◌, Option, none, some, List, [], ◌∷◌, ◌==◌, ltb,
  leb, if◌then◌else◌, length, get_or, set, replicate, u8,
}
use uwb_core.PanUtils.{Version}
use uwb_core.Panmaster.Types.{Node, NodeIdx, zero_node}
use uwb_core.Panmaster.Index.{entry}
use uwb_core.Panmaster.Store.{Store}

-- An entry of the flash circular buffer: the length of its data, and the node that a read of it
-- fills in over a zeroed one, if the read succeeds.
pub record FcbEntry : Type 0 where
  pub fe_data_len : ℕ
  pub content : Option Node

-- `sizeof(struct panmaster_node)`, with and without the version at its end
abbrev pub node_size : ℕ
node_size = 31

abbrev pub old_node_size : ℕ
old_node_size = 23

-- `fcb_load_cb` under `fcb_walk`: the nodes that it hands on, and whether the walk ends at the last
-- entry. An entry of another size ends it, one that cannot be read is passed over.
unfoldable pub fcb_load : List FcbEntry → List Node × Bool
fcb_load [] = ([], true)
fcb_load (e ∷ es) =
    let (ns, done) = fcb_load es in
    if not (e.fe_data_len == node_size) && not (e.fe_data_len == old_node_size)
    then ([], false)
    else elim e.content [ none ↦ (ns, done) | some n ↦ (n ∷ ns, done) ]

-- What a record writes to the entry of its index.
abbrev pub loaded : Node → NodeIdx → NodeIdx
loaded n e =
    let e' = record e {
      addr = n.addr;
      euid = n.euid;
      role = n.role;
      has_perm_slot = n.has_perm_slot;
    } in
    if n.has_perm_slot then record e' { slot_id = n.slot_id; lease_ends = 0 } else e'

-- The test is `node->index <= PANMASTER_MAXNUM_NODES`; `none` is a write behind the array.
unfoldable pub node_idx_load_cb : List NodeIdx → Node → Option (List NodeIdx)
node_idx_load_cb t n =
    if leb n.index (length t)
    then if ltb n.index (length t) then some (set t n.index (loaded n (entry t n.index))) else none
    else some t

unfoldable pub load_idx : List NodeIdx → List Node → Option (List NodeIdx)
load_idx t [] = some t
load_idx t (n ∷ ns) = elim (node_idx_load_cb t n) [ none ↦ none | some t' ↦ load_idx t' ns ]

-- `memset(nodes, 0xff, …)`
abbrev pub filled_version : Version
filled_version = record {
  iv_major = 0xff;
  iv_minor = 0xff;
  iv_revision = 0xffff;
  iv_build_num = 0xffffffff;
}

abbrev pub filled_node : Node
filled_node = record {
  first_seen_utc = 0xffffffffffffffff;
  euid = 0xffffffffffffffff;
  addr = 0xffff;
  dummy = 2047;
  has_perm_slot = true;
  role = 15;
  index = 0xff;
  slot_id = 0xffff;
  fw_ver = filled_version;
}

unfoldable pub sort_nodes_load_cb : List Node → Node → List Node
sort_nodes_load_cb nodes n = if ltb n.index (length nodes) then set nodes n.index n else nodes

unfoldable pub sort_load : List Node → List Node → List Node
sort_load nodes [] = nodes
sort_load nodes (n ∷ ns) = sort_load (sort_nodes_load_cb nodes n) ns

-- "find lowest addr of all nodes", from place `i` on; `low` is `laddr`, `at` is `laddr_i`
unfoldable pub find_lowest : ℕ → ℕ → ℕ → List Node → ℕ × ℕ
find_lowest low at i [] = (low, at)
find_lowest low at i (n ∷ ns) =
    let here = not (n.addr == 0xffff) && ltb n.addr low in
    find_lowest (if here then n.addr else low) (if here then i else at) (i + 1) ns

-- The nodes in the order in which the loop saves them, with the rounds left.
unfoldable pub sort_from : ℕ → ℕ → List Node → List Node
sort_from index zero nodes = []
sort_from index (suc k) nodes =
    let (low, at) = find_lowest 0xffff 0 0 nodes in
    let n = record (get_or nodes at zero_node) { index = u8 index } in
    let rest = sort_from (index + 1) k (set nodes at (record n { addr = 0xffff })) in
    elim (low == 0xffff) [ true ↦ [] | false ↦ n ∷ rest ]

-- the records that `panm_fcb_sort` saves, for an index of `size` entries
unfoldable pub sorted : ℕ → List Node → List Node
sorted size stored = sort_from 0 size (sort_load (replicate size filled_node) stored)

module _ (st : Store) where
  unfoldable pub save_all : st.Log → List Node → st.Log
  save_all l [] = l
  save_all l (n ∷ ns) = save_all (st.save l n).1 ns

  unfoldable pub fcb_sort : ℕ → st.Log → st.Log
  fcb_sort size l = save_all (st.clear l) (sorted size (st.load l))
