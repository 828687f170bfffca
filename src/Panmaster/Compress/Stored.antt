-- ===== src/Panmaster/Compress/Stored.antt =====
-- An update on the flash circular buffer, where no compression comes between.
use uwb_core.Common.{
  ◌<◌, ◌≡◌, ◌≢◌, refl, ap, ◌∙◌, Bool, true, false, Option, none, some, List, [], ◌∷◌, ◌++◌, length,
  if◌then◌else◌, not, ◌&&◌, ◌==◌,
}
use mathlib.Core.Bool.{false≢true}
use uwb_core.Panmaster.Types.{Node, Master}
use uwb_core.Panmaster.Flash.{FcbEntry, fcb_load, node_size, old_node_size}
use uwb_core.Panmaster.Store.{Store}
use uwb_core.Panmaster.Nodes.{World, update_node}
use uwb_core.Panmaster.Nodes.Update.{Updated, Appends, update_node-Updated}
use uwb_core.Panmaster.Compress.{Fcb, full, make_room, fcb_save}

-- what `fcb_load` makes of an entry, from the result for those behind it
abbrev walked : Bool → Option Node → List Node × Bool → List Node × Bool
walked bad content rest =
    if bad
    then ([], false)
    else elim content [ none ↦ (rest.0, rest.1) | some n ↦ (n ∷ rest.0, rest.1) ]

walked-append :
    (bad : Bool) (content : Option Node) (n : Node) (rest rest' : List Node × Bool)
    → (rest.1 ≡ true → rest'.0 ≡ rest.0 ++ (n ∷ []))
    → (walked bad content rest).1 ≡ true
    → (walked bad content rest').0 ≡ (walked bad content rest).0 ++ (n ∷ [])
walked-append true content n rest rest' behind done = absurd (false≢true done)
walked-append false none n rest rest' behind done = behind done
walked-append false (some m) n rest rest' behind done = ap (λ ns. m ∷ ns) (behind done)

-- A walk to the last entry hands on the node of one more entry as well.
fcb_load-append :
    (es : List FcbEntry) (n : Node)
    → (fcb_load es).1 ≡ true
    → (fcb_load (es ++ (full n ∷ []))).0 ≡ (fcb_load es).0 ++ (n ∷ [])
unfolding fcb_load
fcb_load-append [] n done = refl
fcb_load-append (e ∷ es) n done =
    walked-append (not (e.fe_data_len == node_size) && not (e.fe_data_len == old_node_size))
      e.content n (fcb_load es) (fcb_load (es ++ (full n ∷ []))) (fcb_load-append es n) done

module _ (fcb : Fcb) (buf : Node) (clear : fcb.State → fcb.State) where
  abbrev pub entries : fcb.State → List FcbEntry
  entries f = fcb.oldest f ++ fcb.newer f

  -- `panm_fcb_load` and `panm_fcb_save`, with `fcb_clear` and the uninitialised buffer of a
  -- compression as arguments.
  abbrev pub fcb_store : Store
  fcb_store = record {
    Log = fcb.State;
    load = λ f. (fcb_load (entries f)).0;
    save = λ f n. fcb_save fcb buf n f;
    clear = clear;
  }

  -- an append that went well puts its entry last
  abbrev pub AppendsLast : Type 0
  AppendsLast =
      (f : fcb.State) (n : Node)
      → (fcb.append f n).0 ≡ true
      → entries (fcb.append f n).1 ≡ entries f ++ (full n ∷ [])

  with_space :
      (f : fcb.State) (n : Node) → fcb.has_space f ≡ true → fcb_save fcb buf n f ≡ fcb.append f n
  unfolding fcb_save make_room
  with_space f n space = rw (space, make_room) refl

  fcb_save-Appends :
      (f : fcb.State) (m : Master) (n : Node)
      → AppendsLast
      → fcb.has_space f ≡ true
      → (fcb.append f n).0 ≡ true
      → (fcb_load (entries f)).1 ≡ true
      → Appends fcb_store f m n
  fcb_save-Appends f m n law space ok done =
      ap (λ r. (fcb_load (entries r.1)).0) (with_space f n space)
      ∙ ap (λ es. (fcb_load es).0) (law f n ok)
      ∙ fcb_load-append (entries f) n done

  -- On a flash circular buffer that has space, whose append of the record goes well and whose walk
  -- comes to the last entry, an update of a node whose id is not 0 and whose index is inside the table
  -- returns, and the newest record of the id has the node's version, first contact, address, flags
  -- and index, whether a write was needed or not; the newest records of all other ids are kept.
  pub fcb_store-Updated :
      (f : fcb.State) (m : Master) (n : Node)
      → AppendsLast
      → n.euid ≢ 0
      → n.index < length m.node_idx
      → fcb.has_space f ≡ true
      → (fcb.append f n).0 ≡ true
      → (fcb_load (entries f)).1 ≡ true
      → (w : World fcb_store) × (update_node fcb_store n.euid n (f, m) ≡ some w)
        × Updated fcb_store f m n w
  fcb_store-Updated f m n law nz lt space ok done =
      update_node-Updated fcb_store f m n nz lt (fcb_save-Appends f m n law space ok done)
