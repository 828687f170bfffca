-- ===== src/Pan/Frame/RoundTrip.antt =====
-- What is sent is what is received.
use uwb_core.Common.{ℕ, zero, suc, ◌+◌, ◌*◌, ◌/◌, ◌%◌, ◌^◌, ◌<◌, ◌≡◌, refl, arith}
use uwb_core.Pan.Frame.{PanFrame, frame_size, bytes_of, number_of, array, field, frame_of, received}

-- The fields fit their widths.
pub record Fits (f : PanFrame) : Type 0 where
  pub fctrl_fits : f.fctrl < 256
  pub seq_num_fits : f.seq_num < 256
  pub long_address_fits : f.long_address < 256 ^ 8
  pub rpt_count_fits : f.rpt_count < 16
  pub rpt_max_fits : f.rpt_max < 16
  pub code_fits : f.code < 65536
  pub role_fits : f.req.role < 65536
  pub lease_time_fits : f.req.lease_time < 65536
  pub pan_id_fits : f.req.pan_id < 65536
  pub short_address_fits : f.req.short_address < 65536
  pub slot_id_fits : f.req.slot_id < 65536
  pub padding_fits : f.req.padding < 65536

-- Little endian and back.
pub number_of-bytes_of : (n x : ℕ) → x < 256 ^ n → number_of (bytes_of n x) ≡ x
unfolding number_of bytes_of
number_of-bytes_of zero x lt = omega arith
number_of-bytes_of (suc n) x lt =
    let low : x / 256 < 256 ^ n = omega arith in
    rw (number_of-bytes_of n (x / 256) low) (omega arith)

-- Whoever reads the array of a frame whose fields fit their widths reads that frame.
pub frame_of-array : (f : PanFrame) → Fits f → frame_of (array f) ≡ f
unfolding frame_of array field bytes_of
frame_of-array f h =
    rw
      (
        number_of-bytes_of 1 f.fctrl h.fctrl_fits,
        number_of-bytes_of 1 f.seq_num h.seq_num_fits,
        number_of-bytes_of 8 f.long_address h.long_address_fits,
        number_of-bytes_of 1 (f.rpt_count + 16 * f.rpt_max) rpt_fits,
        rpt_count_back,
        rpt_max_back,
        number_of-bytes_of 2 f.code h.code_fits,
        number_of-bytes_of 2 f.req.role h.role_fits,
        number_of-bytes_of 2 f.req.lease_time h.lease_time_fits,
        number_of-bytes_of 2 f.req.pan_id h.pan_id_fits,
        number_of-bytes_of 2 f.req.short_address h.short_address_fits,
        number_of-bytes_of 2 f.req.slot_id h.slot_id_fits,
        number_of-bytes_of 2 f.req.padding h.padding_fits,
      )
      refl
  where
    rpt_fits : f.rpt_count + 16 * f.rpt_max < 256
    rpt_fits = omega (arith, h.rpt_count_fits, h.rpt_max_fits)

    rpt_count_back : (f.rpt_count + 16 * f.rpt_max) % 16 ≡ f.rpt_count
    rpt_count_back = omega (arith, h.rpt_count_fits)

    rpt_max_back : (f.rpt_count + 16 * f.rpt_max) / 16 ≡ f.rpt_max
    rpt_max_back = omega (arith, h.rpt_count_fits)

-- A frame sent in full replaces whatever the receiver's buffer held, and is read as it was.
pub received-array : (f g : PanFrame) → Fits f → received frame_size (array f) g ≡ f
unfolding received array bytes_of
received-array f g h = frame_of-array f h
