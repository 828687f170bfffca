-- ===== src/Pan/Transmit.antt =====
-- The operations of lib/uwb_pan/src/uwb_pan.c that tasks call: listen, blink and reset.
use uwb_core.Common.{
  ℕ, zero, suc, ◌+◌, ◌*◌, ◌/◌, ◌%◌, Bool, true, false, [], ◌∷◌, ◌++◌, Option, none, some, length,
  if◌then◌else◌, u8,
}
use uwb_core.PanUtils.{Version, ReqResp}
use uwb_core.Pan.Frame.{PanFrame}
use uwb_core.Pan.Instance.{
  start_rx, start_tx, set_wait4resp, set_delay_start, set_rx_timeout, Pan, ask, frame, set_frame,
  write_frame,
}
use uwb_core.Pan.Receive.{pan_req, pan_reset_code}

-- The version written to the words of a request, little endian.
unfoldable pub with_version : Option Version → ReqResp → ReqResp
with_version none r = r
with_version (some v) r = record r {
  pan_id = v.iv_major + 256 * v.iv_minor;
  short_address = v.iv_revision;
  slot_id = v.iv_build_num % 65536;
  padding = v.iv_build_num / 65536;
}

module _ {S : Type 0} where
  -- `dpl_sem_pend`; `none` is a task that has to wait.
  unfoldable pub pend : Pan S → Option (Pan S)
  pend p = elim p.sem [ zero ↦ none | suc n ↦ some (record p { sem = n }) ]

  abbrev pub release : Pan S → Pan S
  release p = record p { sem = suc p.sem }

  -- `uwb_pan_listen` up to the start of the receiver.
  unfoldable pub listen_start : Pan S → Option (Pan S)
  unfolding pend
  listen_start p = elim (pend p) [ none ↦ none | some q ↦ some (ask (start_rx ∷ []) q) ]

  -- Up to its wait for the end of the exchange, where nothing comes between; `rx_error` is what
  -- `uwb_start_rx` reports.
  unfoldable pub listen : Bool → Pan S → Option (Pan S)
  unfolding listen_start
  listen rx_error p = elim (listen_start p) [
    | none ↦ none
    | some r ↦ some (if rx_error then release r else r)
  ]

  -- What `uwb_pan_blink` sends: `version` is the image's, if the build has one.
  abbrev pub request_frame : Option Version → ℕ → ℕ → Pan S → PanFrame
  request_frame version rpt_max role p =
      let f = frame p in
      record f {
        seq_num = u8 (f.seq_num + length p.frames);
        long_address = p.dev.euid;
        code = pan_req;
        rpt_count = 0;
        rpt_max = rpt_max;
        req = with_version version (record f.req { role = role; lease_time = p.lease_time });
      }

  -- `uwb_pan_blink` up to the start of the transmitter, and what that reports.
  unfoldable pub blink_start : Option Version → ℕ → Bool → ℕ → ℕ → Pan S → Option (Pan S)
  unfolding pend
  blink_start version rpt_max tx_error role delay p = elim (pend p) [
    | none ↦ none
    | some q ↦
        let f = request_frame version rpt_max role q in
        let commands =
          (set_delay_start delay ∷ [])
          ++ write_frame f
          ++ (set_wait4resp true ∷ set_rx_timeout q.rx_timeout_period ∷ start_tx ∷ []) in
        some (record (ask commands (set_frame f q)) { start_tx_error = tx_error })
  ]

  -- Up to its wait for the end of the exchange, where nothing comes between.
  unfoldable pub blink : Option Version → ℕ → Bool → ℕ → ℕ → Pan S → Option (Pan S)
  unfolding blink_start
  blink version rpt_max tx_error role delay p =
      elim (blink_start version rpt_max tx_error role delay p) [
        | none ↦ none
        | some r ↦ some (if tx_error then release r else r)
      ]

  unfoldable pub pan_reset : Bool → ℕ → Pan S → Pan S
  pan_reset tx_error delay p =
      let f = record (frame p) {
        seq_num = u8 ((frame p).seq_num + length p.frames);
        long_address = p.dev.euid;
        code = pan_reset_code;
      } in
      record (ask
        ((set_delay_start delay ∷ []) ++ write_frame f ++ (set_wait4resp false ∷ start_tx ∷ []))
        (set_frame f p)) { start_tx_error = tx_error }
