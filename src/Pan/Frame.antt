-- ===== src/Pan/Frame.antt =====
-- The PAN frame of lib/pan_utils/include/pan_utils/pan_utils.h, and its view as an array of bytes.
pub mod RoundTrip
use uwb_core.Common.{ℕ, zero, suc, ◌+◌, ◌*◌, ◌/◌, ◌%◌, List, [], ◌∷◌, ◌++◌, take, drop}
use uwb_core.PanUtils.{ReqResp}

-- `union pan_frame_t` by its fields; the first three are those of `_ieee_blink_frame_t`.
pub record PanFrame : Type 0 where
  pub fctrl : ℕ
  pub seq_num : ℕ
  pub long_address : ℕ
  pub rpt_count : ℕ
  pub rpt_max : ℕ
  pub code : ℕ
  pub req : ReqResp

-- `sizeof(union pan_frame_t)`
abbrev pub frame_size : ℕ
frame_size = 25

-- FCNTL_IEEE_BLINK_TAG_64
abbrev pub blink_tag : ℕ
blink_tag = 0x56

-- `n` bytes of a number, little endian
unfoldable pub bytes_of : ℕ → ℕ → List ℕ
bytes_of zero x = []
bytes_of (suc n) x = (x % 256) ∷ bytes_of n (x / 256)

unfoldable pub number_of : List ℕ → ℕ
number_of [] = 0
number_of (b ∷ bs) = b + 256 * number_of bs

-- The member `array` of the union.
unfoldable pub array : PanFrame → List ℕ
unfolding bytes_of
array f =
    bytes_of 1 f.fctrl
    ++ bytes_of 1 f.seq_num
    ++ bytes_of 8 f.long_address
    ++ bytes_of 1 (f.rpt_count + 16 * f.rpt_max)
    ++ bytes_of 2 f.code
    ++ bytes_of 2 f.req.role
    ++ bytes_of 2 f.req.lease_time
    ++ bytes_of 2 f.req.pan_id
    ++ bytes_of 2 f.req.short_address
    ++ bytes_of 2 f.req.slot_id
    ++ bytes_of 2 f.req.padding

-- `n` bytes from the offset on, as a number
unfoldable pub field : ℕ → ℕ → List ℕ → ℕ
field off n bytes = number_of (take n (drop off bytes))

-- The fields that the array holds.
unfoldable pub frame_of : List ℕ → PanFrame
unfolding field
frame_of bytes = record {
  fctrl = field 0 1 bytes;
  seq_num = field 1 1 bytes;
  long_address = field 2 8 bytes;
  rpt_count = field 10 1 bytes % 16;
  rpt_max = field 10 1 bytes / 16;
  code = field 11 2 bytes;
  req = record {
    role = field 13 2 bytes;
    lease_time = field 15 2 bytes;
    pan_id = field 17 2 bytes;
    short_address = field 19 2 bytes;
    slot_id = field 21 2 bytes;
    padding = field 23 2 bytes;
  };
}

-- `memcpy(frame->array, rxbuf, len)`
unfoldable pub received : ℕ → List ℕ → PanFrame → PanFrame
received len rxbuf f = frame_of (take len rxbuf ++ drop len (array f))
