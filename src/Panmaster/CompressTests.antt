-- ===== src/Panmaster/CompressTests.antt =====
-- A flash circular buffer of two sectors whose older one has two records of a node.
use uwb_core.Common.{ℕ, ◌≡◌, refl, sym, arith, Bool, true, some, List, [], ◌∷◌, ◌++◌, map}
use mathlib.Core.List.{append_assoc}
use uwb_core.Panmaster.Types.{Node, Master, node_default, zero_node, zero_entry, node_idx_default}
use uwb_core.Panmaster.Flash.{FcbEntry, fcb_load}
use uwb_core.Panmaster.Nodes.{World, update_node}
use uwb_core.Panmaster.Nodes.Update.{Updated}
use uwb_core.Panmaster.Compress.Stored.{AppendsLast, fcb_store, fcb_store-Updated}
use uwb_core.Panmaster.Store.{Store, latest}
use uwb_core.Panmaster.Compress.{Fcb, FcbLaws, full, compress, fcb_save}
use uwb_core.Panmaster.Compress.Keeps.{earliest, first_of, compress-latest}

-- Sectors in memory that never fail.
abbrev list_fcb : Fcb
list_fcb = record {
  State = List FcbEntry × List FcbEntry;
  oldest = λ f. f.0;
  newer = λ f. f.1;
  has_space = λ f. true;
  append_to_scratch = λ f. some f;
  append = λ f n. (true, (f.0, f.1 ++ (full n ∷ [])));
  rotate = λ f. ([], f.1);
}

list_laws : FcbLaws list_fcb
list_laws = record {
  scratch_oldest = λ f g e. cc e;
  scratch_newer = λ f g e. cc e;
  append_newer = λ f n _. refl;
  append_oldest = λ f n _. refl;
  rotate_all = λ f. refl;
}

appends_last : AppendsLast list_fcb zero_node (λ f. ([], []))
appends_last f n _ = sym (append_assoc f.0 f.1 (full n ∷ []))

abbrev at_addr : ℕ → Node
at_addr a = record node_default { euid = 5; addr = a }

abbrev moved : List Node
moved = at_addr 1 ∷ at_addr 2 ∷ []

abbrev sectors : List FcbEntry × List FcbEntry
sectors = (map full moved, [])

compress-latest_example :
    (ms' : List Node) × ((compress list_fcb zero_node sectors).0
        ++ (compress list_fcb zero_node sectors).1
      ≡ map full ms')
    × ((euid : ℕ) → latest euid ms' ≡ first_of (latest euid []) (earliest euid moved))
compress-latest_example =
    compress-latest list_fcb list_laws (λ f n. refl) moved [] zero_node sectors sectors refl refl
      refl

-- The node was at the address 2 before, and is at 1 after.
moved_back : (latest 5 moved ≡ some (at_addr 2)) × (earliest 5 moved ≡ some (at_addr 1))
unfolding latest earliest
moved_back = (refl, refl)

abbrev after_save : Bool × (List FcbEntry × List FcbEntry)
after_save = fcb_save list_fcb zero_node (at_addr 3) sectors

abbrev tag : Node
tag = record node_default { euid = 9; addr = 0x10; role = 2; index = 0 }

abbrev master : Master
master = record { node_idx = node_idx_default zero_entry ∷ []; nodes_to_save = []; pan_id = 1 }

abbrev memory : Store
memory = fcb_store list_fcb zero_node (λ f. ([], []))

fcb_store-Updated_example :
    (w : World memory) × (update_node memory 9 tag (sectors, master) ≡ some w)
    × Updated memory sectors master tag w
unfolding fcb_load
fcb_store-Updated_example =
    fcb_store-Updated list_fcb zero_node (λ f. ([], [])) sectors master tag appends_last
      (omega arith) (omega arith) refl refl refl
