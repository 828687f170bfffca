-- ===== src/Panmaster/Compress.antt =====
-- The compression of the flash circular buffer: `panm_fcb_compress` of panmaster_fcb.c.
pub mod Keeps
pub mod Save
pub mod Stored
use uwb_core.Common.{
  ℕ, zero, suc, Bool, true, false, Option, none, some, List, [], ◌∷◌, ◌++◌, any, map, ◌==◌,
  if◌then◌else◌, ◌≡◌,
}
use uwb_core.Panmaster.Types.{Node}
use uwb_core.Panmaster.Flash.{FcbEntry, node_size, old_node_size}

-- The flash circular buffer of the operating system: the entries of its oldest sector and those of
-- the others, oldest first. `has_space` is false where fcb_append reports FCB_ERR_NOSPACE; `append`
-- is fcb_append, flash_area_write and fcb_append_finish, and tells whether all went well.
pub record Fcb : Type 1 where
  pub State : Type 0
  pub oldest : State → List FcbEntry
  pub newer : State → List FcbEntry
  pub has_space : State → Bool
  pub append_to_scratch : State → Option State
  pub append : State → Node → Bool × State
  pub rotate : State → State

-- an entry that holds a whole node
abbrev pub full : Node → FcbEntry
full n = record { fe_data_len = node_size; content = some n }

-- What the code relies on: taking the scratch sector into use moves no entry, an entry whose append
-- went well is the last one, and a rotation drops the oldest sector and nothing else.
pub record FcbLaws (fcb : Fcb) : Type 0 where
  pub scratch_oldest :
      (f g : fcb.State) → fcb.append_to_scratch f ≡ some g → fcb.oldest g ≡ fcb.oldest f
  pub scratch_newer :
      (f g : fcb.State) → fcb.append_to_scratch f ≡ some g → fcb.newer g ≡ fcb.newer f
  pub append_newer :
      (f : fcb.State) (n : Node)
      → (fcb.append f n).0 ≡ true
      → fcb.newer (fcb.append f n).1 ≡ fcb.newer f ++ (full n ∷ [])
  pub append_oldest :
      (f : fcb.State) (n : Node)
      → (fcb.append f n).0 ≡ true
      → fcb.oldest (fcb.append f n).1 ≡ fcb.oldest f
  pub rotate_all :
      (f : fcb.State) → fcb.oldest (fcb.rotate f) ++ fcb.newer (fcb.rotate f) ≡ fcb.newer f

-- `flash_area_read` of the entry's length into a buffer that still holds the node read before: an
-- entry without a version leaves the version of that one.
unfoldable pub read_over : Node → FcbEntry → Option Node
read_over buf e = elim e.content [
  | none ↦ none
  | some n ↦ some (if e.fe_data_len == old_node_size then record n { fw_ver = buf.fw_ver } else n)
]

-- the inner loop: a later entry outside the oldest sector has the id
unfoldable pub has_newer : ℕ → List FcbEntry → Bool
has_newer euid es = any (λ e. elim e.content [ none ↦ false | some n ↦ euid == n.euid ]) es

-- Each append goes well, as those to a fresh scratch sector do.
abbrev pub HasRoom : Fcb → Type 0
HasRoom fcb = (f : fcb.State) (n : Node) → (fcb.append f n).0 ≡ true

module _ (fcb : Fcb) where
  -- The outer loop over the oldest sector; `buf` is `buf1`.
  unfoldable pub copy_from : List FcbEntry → Node → fcb.State → fcb.State
  copy_from [] buf f = f
  copy_from (e ∷ es) buf f = elim (read_over buf e) [
    | none ↦ copy_from es buf f
    | some n ↦ copy_from es n (if has_newer n.euid (fcb.newer f) then f else (fcb.append f n).1)
  ]

  -- `buf` is what the uninitialised buffer holds at first.
  unfoldable pub compress : Node → fcb.State → fcb.State
  compress buf f = elim (fcb.append_to_scratch f) [
    | none ↦ f
    | some g ↦ fcb.rotate (copy_from (fcb.oldest g) buf g)
  ]

  -- The loop of `panm_fcb_append`, with the rounds left: whether an entry fits in the end.
  unfoldable pub make_room : ℕ → Node → fcb.State → Bool × fcb.State
  make_room zero buf f = (false, f)
  make_room (suc k) buf f =
      let rest = make_room k buf (compress buf f) in if fcb.has_space f then (true, f) else rest

  -- `panm_fcb_save`, which tells whether it returns OS_OK.
  unfoldable pub fcb_save : Node → Node → fcb.State → Bool × fcb.State
  unfolding make_room
  fcb_save buf n f =
      let (fits, g) = make_room 10 buf f in if fits then fcb.append g n else (false, g)
