-- ===== src/Panmaster/Compress/Save.antt =====
-- What a save leaves in the flash circular buffer.
use uwb_core.Common.{◌≡◌, sym, Bool, true, false, List, [], ◌∷◌, ◌++◌, if◌then◌else◌}
use mathlib.Core.List.{append_assoc}
use mathlib.Core.Bool.{false≢true}
use uwb_core.Panmaster.Types.{Node}
use uwb_core.Panmaster.Flash.{FcbEntry}
use uwb_core.Panmaster.Compress.{Fcb, FcbLaws, full, make_room, fcb_save}

module _ (fcb : Fcb) (laws : FcbLaws fcb) where
  abbrev pub all_entries : fcb.State → List FcbEntry
  all_entries f = fcb.oldest f ++ fcb.newer f

  append-all_entries :
      (f : fcb.State) (n : Node)
      → (fcb.append f n).0 ≡ true
      → all_entries (fcb.append f n).1 ≡ all_entries f ++ (full n ∷ [])
  append-all_entries f n ok =
      rw (laws.append_oldest f n ok, laws.append_newer f n ok)
        (sym (append_assoc (fcb.oldest f) (fcb.newer f) (full n ∷ [])))

  ended :
      (n : Node) (fits : Bool) (g : fcb.State)
      → (if fits then fcb.append g n else (false, g)).0 ≡ true
      → all_entries (if fits then fcb.append g n else (false, g)).1 ≡ all_entries g ++ (full n ∷ [])
  ended n true g ok = append-all_entries g n ok
  ended n false g ok = absurd (false≢true ok)

  -- A save that reports success puts the node behind all that the compressions, ten at most, left.
  pub fcb_save-all_entries :
      (buf n : Node) (f : fcb.State)
      → (fcb_save fcb buf n f).0 ≡ true
      → all_entries (fcb_save fcb buf n f).1
        ≡ all_entries (make_room fcb 10 buf f).1 ++ (full n ∷ [])
  unfolding fcb_save
  fcb_save-all_entries buf n f ok = ended n (make_room fcb 10 buf f).0 (make_room fcb 10 buf f).1 ok
