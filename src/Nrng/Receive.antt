-- ===== src/Nrng/Receive.antt =====
-- The callbacks of lib/twr_ss_nrng/src/twr_ss_nrng.c.
use uwb_core.Common.{
  ℕ, suc, ◌+◌, ◌-◌, ◌*◌, ◌/◌, ◌%◌, ◌^◌, Bool, true, false, not, ◌&&◌, Option, none, some, List, [],
  ◌∷◌, ◌++◌, if◌then◌else◌, ◌==◌, ltb, u8, u16, u32, sub32,
}
use uwb_core.RngSlots.{and_bits, bit_index, slot_position}
use uwb_core.Nrng.{
  NrngFrame, Dev, RngConfig, write_tx, set_wait4resp, set_rx_timeout, set_delay_start, start_tx,
  complete, Nrng, put, usecs_to_response, request_len, response_len, fctrl_range, ss_nrng,
  ss_nrng_t1, ss_nrng_final,
}

-- a frame in the driver's buffer, with what the driver tells of it
pub record Received : Type 0 where
  pub fctrl : ℕ
  pub frame_len : ℕ
  pub frame : NrngFrame
  pub rxtimestamp : ℕ
  pub lde_error : Bool
  pub txtime_lo32 : ℕ
  pub carrier_integrator : ℕ
  pub rxdiag : Option (List ℕ)

-- `response_tx_delay`: the delayed start of the answer in a slot
abbrev pub response_start : RngConfig → ℕ → ℕ → ℕ → ℕ
response_start config dwt_duration rxtime slot =
    (rxtime + (config.tx_holdoff_delay + slot * (config.tx_guard_delay + dwt_duration)) * 2 ^ 16)
    % 2 ^ 64

-- `response_timestamp`, the low nine bits of the start cleared
abbrev pub response_stamp : ℕ → ℕ → ℕ
response_stamp antenna_delay start = (start % 2 ^ 40 / 512 * 512 + antenna_delay) % 2 ^ 64

-- the answer to a request, over what the frame buffer holds
unfoldable pub response_frame : Dev → ℕ → ℕ → Received → NrngFrame → NrngFrame
response_frame dev slot start r old = record old {
  fctrl = r.frame.fctrl;
  seq_num = r.frame.seq_num;
  pan_id = r.frame.pan_id;
  dst_address = r.frame.src_address;
  src_address = dev.my_short_address;
  code = ss_nrng_t1;
  ptype = r.frame.ptype;
  cell_id = r.frame.cell_id;
  slot_mask = r.frame.slot_mask;
  reception_timestamp = u32 r.rxtimestamp;
  transmission_timestamp = u32 (response_stamp dev.tx_antenna_delay start);
  slot_id = u8 slot;
  carrier_integrator = sub32 0 r.carrier_integrator;
}

-- the slot of this node in a request, none where the request is not for it
unfoldable pub my_slot : Dev → Received → Option ℕ
unfolding and_bits bit_index
my_slot dev r =
    if ltb r.frame_len request_len
    then none
    else if not (r.frame.ptype == 0)
    then none
    else if not (r.frame.cell_id == dev.cell_id)
    then none
    else if and_bits 32 r.frame.slot_mask (2 ^ dev.slot_id) == 0
    then none
    else some (u16 (bit_index r.frame.slot_mask (2 ^ dev.slot_id) slot_position))

-- case UWB_DATA_CODE_SS_TWR_NRNG
unfoldable pub respond : RngConfig → ℕ → Received → Nrng → Nrng
unfolding my_slot response_frame
respond config dwt_duration r nrng = elim (my_slot nrng.dev r) [
  | none ↦ nrng
  | some slot ↦
      let at = u16 (suc nrng.idx) in
      let start = response_start config dwt_duration r.rxtimestamp slot in
      let frame = response_frame nrng.dev slot start r (nrng.frames (at % nrng.nframes)) in
      record nrng {
        idx = at;
        frames = put (at % nrng.nframes) frame nrng.frames;
        sem = suc nrng.sem;
        calls =
            nrng.calls
            ++ write_tx frame response_len
              ∷ set_wait4resp false
              ∷ set_delay_start start
              ∷ start_tx
              ∷ [];
      }
]

-- the record of a response at the node that has asked
unfoldable pub final_frame : Dev → Received → NrngFrame → NrngFrame
final_frame dev r old = record old {
  fctrl = r.frame.fctrl;
  seq_num = r.frame.seq_num;
  pan_id = r.frame.pan_id;
  dst_address = r.frame.src_address;
  src_address = dev.my_short_address;
  code = ss_nrng_final;
  ptype = r.frame.ptype;
  cell_id = r.frame.cell_id;
  slot_mask = r.frame.slot_mask;
  reception_timestamp = r.frame.reception_timestamp;
  transmission_timestamp = r.frame.transmission_timestamp;
  slot_id = r.frame.slot_id;
  request_timestamp = u32 r.txtime_lo32;
  response_timestamp = if r.lde_error then 0 else u32 r.rxtimestamp;
  carrier_integrator = r.carrier_integrator;
  diag = elim r.rxdiag [ none ↦ old.diag | some bytes ↦ bytes ];
}

-- the timeout for the responses still to come; 1 after the last, to end the request
abbrev pub rest_timeout : RngConfig → ℕ → ℕ → ℕ → ℕ → ℕ
rest_timeout config guard_usecs duration nodes slot =
    if suc slot == nodes
    then 1
    else u16 (
        usecs_to_response (u16 (nodes + 65536 - slot)) guard_usecs duration
        + config.rx_timeout_delay)

-- case UWB_DATA_CODE_SS_TWR_NRNG_T1
unfoldable pub collect : RngConfig → ℕ → ℕ → Received → Nrng → Nrng
unfolding final_frame
collect config guard_usecs duration r nrng =
    if ltb r.frame_len response_len
    then nrng
    else if not (nrng.seq_num == r.frame.seq_num)
    then nrng
    else let at = (nrng.idx + r.frame.slot_id) % nrng.nframes in
      record nrng {
        frames = put at (final_frame nrng.dev r (nrng.frames at)) nrng.frames;
        calls =
            nrng.calls
            ++ set_rx_timeout (rest_timeout config guard_usecs duration nrng.nnodes r.frame.slot_id)
              ∷ [];
      }

unfoldable pub rx_complete_cb : RngConfig → ℕ → ℕ → ℕ → Received → Nrng → Bool × Nrng
unfolding respond collect
rx_complete_cb config guard_usecs duration dwt_duration r nrng =
    if not (r.fctrl == fctrl_range)
    then (false, nrng)
    else if nrng.sem == 1
    then (false, nrng)
    else if not (r.frame.dst_address == nrng.dev.my_short_address)
        && not (r.frame.dst_address == 0xffff)
    then (true, nrng)
    else if r.frame.code == ss_nrng
    then (true, respond config dwt_duration r nrng)
    else if r.frame.code == ss_nrng_t1
    then (true, collect config guard_usecs duration r nrng)
    else (false, nrng)

unfoldable pub rx_error_cb : ℕ → Nrng → Bool × Nrng
rx_error_cb fctrl nrng =
    if not (fctrl == fctrl_range)
    then (false, nrng)
    else if nrng.sem == 0
    then (true, record nrng { sem = 1 })
    else (false, nrng)

-- the timeout ends a request: `complete_cb` of the services is called
unfoldable pub rx_timeout_cb : Nrng → Bool × Nrng
rx_timeout_cb nrng =
    if nrng.sem == 1
    then (false, nrng)
    else if nrng.sem == 0
    then (true, record nrng { sem = 1; calls = nrng.calls ++ complete ∷ [] })
    else (true, nrng)

unfoldable pub reset_cb : Nrng → Bool × Nrng
reset_cb nrng = if nrng.sem == 0 then (true, record nrng { sem = 1 }) else (false, nrng)
