-- ===== src/Ccp/Send.antt =====
-- The master's side of lib/uwb_ccp/src/uwb_ccp.c: `ccp_send`, `tx_complete_cb` and `uwb_ccp_start`.
pub mod Beacon
use uwb_core.Common.{
  ℕ, zero, suc, ◌+◌, ◌-◌, ◌*◌, ◌/◌, ◌%◌, Bool, true, false, not, ◌&&◌, ◌||◌, [], ◌∷◌, Option, none,
  some, if◌then◌else◌, ◌==◌, ltb, u8, u16, u32, sub32,
}
use uwb_core.Mac.{dtu40, sub64}
use uwb_core.Ccp.{
  ticks, Blink, CcpFrame, blink_size, ccp_master, start_tx, forcetrxoff, set_delay_start,
  set_wait4resp, write_tx, write_tx_fctrl, put_postprocess, timer_start, timer_relative, Ccp, Clock,
  os_time, ask, frame_at, set_frame_at, call_all, call_superframe, adjust_for_epoch_to_rm,
}

-- `lo = ts` and `hi = 0`; the top bit stays.
abbrev pub first_timestamp : ℕ → Blink → ℕ
first_timestamp ts b =
    dtu40 ts + b.transmission_timestamp / 9223372036854775808 * 9223372036854775808

module _ {S : Type 0} where
  -- `dpl_sem_pend`; `none` is a task that has to wait.
  unfoldable pub pend : Ccp S → Option (Ccp S)
  pend c = elim c.sem [ zero ↦ none | suc n ↦ some (record c { sem = n }) ]

  -- The start of the next transmission, without the antenna's delay: a period after the frame before,
  -- "Mask off the last 9 bits".
  unfoldable pub next_start : Ccp S → ℕ
  next_start c =
      let previous = frame_at c.idx c in
      (previous.blink.transmission_timestamp + c.period * 65536) % 18446744073709551616 / 512 * 512

  -- the frame that the master sends next
  unfoldable pub next_blink : Ccp S → Blink
  unfolding next_start
  next_blink c = record (frame_at (c.idx + 1) c).blink {
    rpt_count = 0;
    rpt_max = u8 c.settings.max_cascade_rpts;
    epoch_to_rm_us = c.dev.shr_duration;
    transmission_timestamp = (next_start c + c.dev.tx_antenna_delay) % 18446744073709551616;
    seq_num = u8 (c.seq_num + 1);
    euid = c.dev.euid;
    short_address = c.dev.my_short_address;
    transmission_interval = dtu40 (c.period * 65536);
  }

  -- the frame is stored and written, and its transmission started
  unfoldable pub start_beacon : Ccp S → Ccp S
  unfolding next_blink
  start_beacon c =
      let b = next_blink c in
      let f = record (frame_at (c.idx + 1) c) { blink = b } in
      ask
        (set_delay_start (next_start c)
          ∷ write_tx b
          ∷ write_tx_fctrl blink_size
          ∷ set_wait4resp false
          ∷ start_tx
          ∷ [])
        (set_frame_at (c.idx + 1) f (record c { seq_num = u8 (c.seq_num + 1) }))

  -- "Handle missed transmission and update epochs as tx_complete would have done otherwise"; the frame
  -- has index `c.idx + 1`, and `systime` is the device's time.
  unfoldable pub beacon_failed : ℕ → Ccp S → Ccp S
  unfolding call_all
  beacon_failed systime c =
      let ts = (frame_at (c.idx + 1) c).blink.transmission_timestamp in
      let late_us = dtu40 (sub64 systime ts) / 65536 in
      let previous = frame_at c.idx c in
      let next = record previous {
        blink = record previous.blink {
          transmission_timestamp = (ts + c.period * 65536) % 18446744073709551616;
        };
      } in
      let d = record (set_frame_at c.idx next c) {
        idx = u16 (c.idx + 1);
        os_epoch =
            sub32 (u32 (c.os_epoch + ticks c (sub64 c.period late_us)))
              (c.us_ticks c.settings.os_latency);
        master_epoch = (c.master_epoch + c.period * 65536) % 18446744073709551616;
        local_epoch = (c.local_epoch + c.period * 65536) % 18446744073709551616;
      } in
      let e = if c.settings.tolerate_missed_frames == 0 then d else call_superframe d in
      record e { sem = e.sem + 1 }

  -- `ccp_send` up to its wait for the end of the transmission; `tx_error` is what `uwb_start_tx`
  -- reports.
  unfoldable pub send : Bool → ℕ → Ccp S → Option (Ccp S)
  unfolding pend start_beacon beacon_failed
  send tx_error systime c = elim (pend (ask (forcetrxoff ∷ []) c)) [
    | none ↦ none
    | some d ↦
        let e = record (start_beacon d) { start_tx_error = tx_error } in
        some (if tx_error then beacon_failed systime e else e)
  ]

  -- the epochs of the frame that was sent
  unfoldable pub sent_epochs : Clock → Ccp S → Ccp S
  unfolding os_time adjust_for_epoch_to_rm
  sent_epochs clock c =
      let b = (frame_at c.idx c).blink in
      adjust_for_epoch_to_rm b.epoch_to_rm_us (record c {
        os_epoch = os_time (ticks c) clock (u32 b.transmission_timestamp);
        local_epoch = dtu40 b.transmission_timestamp;
        master_epoch = b.transmission_timestamp;
        period = b.transmission_interval / 65536;
      })

  -- when the timer wakes the master for its next frame
  abbrev pub next_wake : Ccp S → ℕ
  next_wake c = u32 (sub32 c.os_epoch (c.us_ticks c.settings.os_latency) + ticks c c.period)

  -- the timer for the next frame; `timer_rc` is what `dpl_cputime_timer_start` returns.
  unfoldable pub rearm : ℕ → Ccp S → Ccp S
  rearm timer_rc c =
      if c.timer_enabled
      then record (ask (timer_start (next_wake c) ∷ []) c) {
        timer_restarted = (timer_rc == 0) || c.timer_restarted;
      }
      else c

  -- the superframe and the postprocessing
  unfoldable pub announce_sent : Ccp S → Ccp S
  unfolding call_all
  announce_sent c =
      let d = call_superframe (record c { valid = c.valid || ltb 1 c.idx }) in
      if d.postprocess && d.valid then ask (put_postprocess ∷ []) d else d

  unfoldable pub tx_complete_cb : Clock → ℕ → Ccp S → Bool × Ccp S
  unfolding sent_epochs rearm announce_sent
  tx_complete_cb clock timer_rc c =
      if c.sem == 1
      then (false, c)
      else if not (c.role == ccp_master)
      then (false, c)
      else (let d = sent_epochs clock (record c { idx = u16 (c.idx + 1) }) in
          let e = announce_sent (rearm timer_rc d) in
          (false, record e { sem = if e.sem == 0 then 1 else e.sem }))

  -- `uwb_ccp_start`; `ccp_timer_init` keeps the timer's handler of an earlier start.
  unfoldable pub start : ℕ → ℕ → ℕ → Ccp S → Ccp S
  start cputime systime role c =
      let e = c.dev.shr_duration in
      let ts =
        dtu40 (sub64 systime (c.period * 65536))
        + (c.tx_holdoff_dly + 2 * c.settings.os_latency) * 65536 in
      let f = frame_at 0 c in
      let g =
        if role % 16 == ccp_master
        then record f {
          blink = record f.blink { transmission_timestamp = first_timestamp ts f.blink };
        }
        else record f { reception_timestamp = ts } in
      let epoch = if role % 16 == ccp_master then dtu40 ts else ts in
      ask (timer_relative 0 ∷ []) (
        set_frame_at 0 g (record c {
          idx = 0;
          valid = false;
          master_euid = 0;
          role = role % 16;
          enabled = true;
          os_epoch = sub32 cputime e;
          local_epoch = dtu40 (sub64 epoch e);
          timer_enabled = true;
        }))
