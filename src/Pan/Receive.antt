-- ===== src/Pan/Receive.antt =====
-- The callbacks of lib/uwb_pan/src/uwb_pan.c and lib/pan_utils: receive, transmit done, timeout,
-- reset and the end of the lease.
pub mod Outcome
use uwb_core.Common.{
  ℕ, ◌+◌, ◌*◌, ◌/◌, ◌%◌, Bool, true, false, not, ◌&&◌, List, [], ◌∷◌, ◌++◌, Option, none, some,
  if◌then◌else◌, ◌==◌, ltb, u16, u32, sub32, take,
}
use uwb_core.PanUtils.{ReqResp}
use uwb_core.Pan.Frame.{PanFrame, blink_tag, frame_size, array, received}
use uwb_core.Pan.Instance.{
  Dev, Command, stop_rx, start_tx, set_wait4resp, write_tx_fctrl, write_tx, put_postprocess,
  stop_lease, start_lease_ms, Pan, role_master, role_relay, ask, frame, set_frame, write_frame,
}

-- DWT_PAN_REQ, DWT_PAN_RESP and DWT_PAN_RESET
abbrev pub pan_req : ℕ
pan_req = 1

abbrev pub pan_resp : ℕ
pan_resp = 2

abbrev pub pan_reset_code : ℕ
pan_reset_code = 3

-- The lease in µs, as a `uint32_t`; with CCP, `epoch` is its local one, less the time since then.
unfoldable pub lease_us : Option ℕ → ℕ → ℕ → ℕ
lease_us epoch rxtimestamp lease_time =
    let us = u32 (lease_time * 1000000) in
    elim epoch [
      | none ↦ us
      | some e ↦ sub32 us (sub32 (u32 (rxtimestamp / 65536)) (u32 (e / 65536)))
    ]

-- the frame that a relay sends on
abbrev pub repeated : PanFrame → PanFrame
repeated f = record f { rpt_count = f.rpt_count + 1 }

module _ {S : Type 0} where
  -- `if (dpl_sem_get_count(&pan->sem) == 0) dpl_sem_release(&pan->sem);`
  abbrev pub release_taken : Pan S → Pan S
  release_taken p = if p.sem == 0 then record p { sem = 1 } else p

  -- The request is the current frame, and so is the response: the callback gets one buffer.
  -- `tx_error` is what `uwb_start_tx` reports.
  unfoldable pub answer_by : (ℕ → ReqResp → S → Bool × ReqResp × S) → Bool → Pan S → Pan S
  answer_by cb tx_error p =
      let f = record (frame p) { code = pan_resp } in
      let (answered, req, s) = cb f.long_address f.req p.store in
      let g = record f { req = req } in
      let q = record (set_frame g p) { store = s } in
      if answered
      then record (ask (set_wait4resp false ∷ write_frame g ++ (start_tx ∷ [])) q) {
        start_tx_error = tx_error;
      }
      else q

  unfoldable pub handle_pan_request : Bool → Pan S → Pan S
  handle_pan_request tx_error p = elim p.request_cb [ none ↦ p | some cb ↦ answer_by cb tx_error p ]

  -- "Postprocess, all roles" and "Release sem"
  unfoldable pub finish : Pan S → Bool × Pan S
  finish p = (true, release_taken (if p.postprocess then ask (put_postprocess ∷ []) p else p))

  -- the frame is not for this node, which relays, and may be repeated once more
  unfoldable pub relays : Pan S → Bool
  relays p =
      (p.role == role_relay)
      && ltb (frame p).rpt_count (frame p).rpt_max
      && not ((frame p).long_address == p.dev.euid)

  -- As in the source, the transmission starts before the frame is written.
  unfoldable pub relay : Bool → Pan S → Pan S
  relay tx_error p =
      let g = repeated (frame p) in
      let len = p.dev.frame_len in
      if relays p
      then record (ask
          (set_wait4resp true ∷ write_tx_fctrl len ∷ start_tx ∷ write_tx (take len (array g)) ∷ [])
          (set_frame g p)) { start_tx_error = tx_error }
      else p

  -- the TAG/ANCHOR side of a response
  unfoldable pub accept : Option ℕ → Pan S → Pan S
  accept epoch p =
      let req = (frame p).req in
      let q = record p {
        dev = record p.dev { uid = req.short_address; pan_id = req.pan_id; slot_id = req.slot_id };
        valid = true;
        lease_expired = false;
      } in
      let lease = lease_us epoch p.dev.rxtimestamp req.lease_time / 1000 in
      ask (if ltb 0 req.lease_time then stop_lease ∷ start_lease_ms lease ∷ [] else stop_lease ∷ [])
        q

  -- `switch(frame->code)` and what follows; the case of a reset has no `break`.
  unfoldable pub on_code : Option ℕ → Bool → Pan S → Bool × Pan S
  unfolding finish
  on_code epoch tx_error p =
      let f = frame p in
      if f.code == pan_req
      then if p.role == role_master
        then finish (handle_pan_request tx_error (ask (stop_rx ∷ []) p))
        else (true, p)
      else if f.code == pan_resp
      then if f.long_address == p.dev.euid then finish (accept epoch p) else (true, p)
      else if f.code == pan_reset_code
      then if not (p.role == role_master)
        then (
          false,
          ask (stop_lease ∷ []) (record p {
            valid = false;
            lease_expired = true;
            dev = record p.dev { slot_id = 0xffff };
          }),
        )
        else (false, p)
      else (false, p)

  unfoldable pub rx_complete_cb : Option ℕ → Bool → Pan S → Bool × Pan S
  unfolding on_code
  rx_complete_cb epoch tx_error p =
      if not (p.dev.fctrl == blink_tag)
      then if p.sem == 0 then (false, record p { sem = 1 }) else (false, p)
      else if p.sem == 1
      then (false, p)
      else if ltb frame_size p.dev.frame_len
      then (false, p)
      else on_code epoch tx_error
          (relay tx_error (set_frame (received p.dev.frame_len p.dev.rxbuf (frame p)) p))

  unfoldable pub tx_complete_cb : Pan S → Bool × Pan S
  tx_complete_cb p =
      if not (p.dev.fctrl == blink_tag)
      then (false, p)
      else (true, record p { idx = u16 (p.idx + 1) })

  unfoldable pub reset_cb : Pan S → Bool × Pan S
  reset_cb p = if p.sem == 0 then (true, record p { sem = 1 }) else (false, p)

  unfoldable pub rx_timeout_cb : Pan S → Bool × Pan S
  rx_timeout_cb p = if p.sem == 0 then (true, record p { sem = 1 }) else (false, p)

  unfoldable pub lease_expiry_cb : Pan S → Pan S
  lease_expiry_cb p =
      let q = record p {
        valid = false;
        lease_expired = true;
        dev = record p.dev { slot_id = 0xffff };
      } in
      if q.postprocess then ask (put_postprocess ∷ []) q else q
