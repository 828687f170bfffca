-- ===== src/Nrng.antt =====
-- Ranging to many nodes: the structures of lib/nrng/include/nrng/nrng.h and the frames of
-- hw/drivers/uwb/include/uwb/uwb_ftypes.h, in a build with cells and without wireless clocks.
pub mod Request
pub mod Receive
pub mod Ranges
pub mod Spacing
pub mod Ring
pub mod Exchange
mod Tests
use uwb_core.Common.{ℕ, ◌+◌, ◌*◌, ◌%◌, ◌^◌, Bool, Option, List, ◌==◌, if◌then◌else◌}

-- `nrng_frame_t`. The payload of a request shares bytes with the two timestamps of a response; no
-- operation reads the one after it has written the other.
pub record NrngFrame : Type 0 where
  fctrl : ℕ
  seq_num : ℕ
  pan_id : ℕ
  dst_address : ℕ
  src_address : ℕ
  code : ℕ
  ptype : ℕ
  cell_id : ℕ
  slot_mask : ℕ
  reception_timestamp : ℕ
  transmission_timestamp : ℕ
  slot_id : ℕ
  request_timestamp : ℕ
  response_timestamp : ℕ
  carrier_integrator : ℕ
  diag : List ℕ

abbrev pub fctrl_range : ℕ
fctrl_range = 0x8841

abbrev pub ss_nrng : ℕ
ss_nrng = 0x130

abbrev pub ss_nrng_t1 : ℕ
ss_nrng_t1 = 0x131

abbrev pub ss_nrng_final : ℕ
ss_nrng_final = 0x132

-- `sizeof(nrng_request_frame_t)` and `sizeof(nrng_response_frame_t)`
abbrev pub request_len : ℕ
request_len = 19

abbrev pub response_len : ℕ
response_len = 20

-- the fields of `struct uwb_dev` that the services use
pub record Dev : Type 0 where
  uid : ℕ
  my_short_address : ℕ
  cell_id : ℕ
  slot_id : ℕ
  tx_antenna_delay : ℕ

-- `struct uwb_rng_config`
pub record RngConfig : Type 0 where
  tx_holdoff_delay : ℕ
  rx_timeout_delay : ℕ
  tx_guard_delay : ℕ

-- what the driver is asked for, and the call of the services' `complete_cb`
pub data Call : Type 0 where
  write_tx : NrngFrame → ℕ → Call
  set_wait4resp : Bool → Call
  set_rx_timeout : ℕ → Call
  set_delay_start : ℕ → Call
  start_tx : Call
  complete : Call

-- `struct nrng_instance`; an index into `frames` is always a remainder by `nframes`
pub record Nrng : Type 0 where
  dev : Dev
  nframes : ℕ
  nnodes : ℕ
  slot_mask : ℕ
  cell_id : ℕ
  seq_num : ℕ
  idx : ℕ
  sem : ℕ
  delay : ℕ
  delay_start_enabled : Bool
  frames : ℕ → NrngFrame
  calls : List Call

-- `nrng->frames[k] = f`
abbrev pub put : ℕ → NrngFrame → (ℕ → NrngFrame) → ℕ → NrngFrame
put k f frames i = if i == k then f else frames i

-- `usecs_to_response`, the guard delay converted by the driver
abbrev pub usecs_to_response : ℕ → ℕ → ℕ → ℕ
usecs_to_response nslots guard_usecs duration = (nslots * (duration + guard_usecs)) % 2 ^ 32
