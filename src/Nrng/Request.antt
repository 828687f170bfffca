-- ===== src/Nrng/Request.antt =====
-- `nrng_request` of lib/nrng/src/nrng.c, up to its wait, and `nrng_request_delay_start`.
use uwb_core.Common.{
  ℕ, suc, ◌+◌, ◌-◌, ◌%◌, Bool, true, Option, none, some, [], ◌∷◌, ◌++◌, if◌then◌else◌, ◌==◌, ◌&&◌,
  u8, u16,
}
use uwb_core.RngSlots.{number_of_bits}
use uwb_core.Nrng.{
  RngConfig, write_tx, set_wait4resp, set_rx_timeout, set_delay_start, start_tx, Nrng, put,
  usecs_to_response, request_len,
}

-- the instance and the frame of a request: `frames[idx % nframes]`, after the index has moved on
unfoldable pub prepare : ℕ → ℕ → ℕ → ℕ → Nrng → Nrng
unfolding number_of_bits
prepare dst code mask cell nrng =
    let nodes = u16 (number_of_bits mask) in
    let at = u16 (nrng.idx + nodes) in
    let seq = u8 (suc nrng.seq_num) in
    let frame = record (nrng.frames (at % nrng.nframes)) {
      seq_num = seq;
      code = code;
      src_address = u16 nrng.dev.uid;
      dst_address = dst;
      ptype = 0;
      cell_id = cell % 16384;
      slot_mask = mask;
    } in
    record nrng {
      nnodes = nodes;
      idx = at;
      seq_num = seq;
      cell_id = cell;
      slot_mask = mask;
      frames = put (at % nrng.nframes) frame nrng.frames;
    }

-- `timeout`, of 16 bits
abbrev pub request_timeout : RngConfig → ℕ → ℕ → ℕ → ℕ
request_timeout config guard_usecs duration nodes = u16 (
    config.tx_holdoff_delay
    + usecs_to_response nodes guard_usecs duration
    + config.rx_timeout_delay)

-- the driver's part
unfoldable pub launch : RngConfig → ℕ → ℕ → Bool → Nrng → Nrng
launch config guard_usecs duration tx_error nrng =
    let asked =
      write_tx (nrng.frames (nrng.idx % nrng.nframes)) request_len
      ∷ set_wait4resp true
      ∷ set_rx_timeout (request_timeout config guard_usecs duration nrng.nnodes)
      ∷ [] in
    let delayed = if nrng.delay_start_enabled then set_delay_start nrng.delay ∷ [] else [] in
    let sem = if tx_error && nrng.sem == 0 then 1 else nrng.sem in
    record nrng { sem = sem; calls = nrng.calls ++ asked ++ delayed ++ start_tx ∷ [] }

-- none where the semaphore is taken: the caller waits
unfoldable pub nrng_request : RngConfig → ℕ → ℕ → Bool → ℕ → ℕ → ℕ → ℕ → Nrng → Option Nrng
unfolding prepare launch
nrng_request config guard_usecs duration tx_error dst code mask cell nrng =
    if nrng.sem == 0
    then none
    else some (
        launch config guard_usecs duration tx_error
          (prepare dst code mask cell (record nrng { sem = nrng.sem - 1 })))
