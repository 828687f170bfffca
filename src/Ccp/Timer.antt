-- ===== src/Ccp/Timer.antt =====
-- The timer events of lib/uwb_ccp/src/uwb_ccp.c: the master's, the slave's, and `ccp_listen`.
use uwb_core.Common.{
  ℕ, ◌+◌, ◌-◌, ◌*◌, ◌%◌, Bool, false, not, ◌&&◌, ◌||◌, [], ◌∷◌, ◌++◌, Option, none, some,
  if◌then◌else◌, ◌==◌, ltb, u16, u32, sub32,
}
use uwb_core.Mac.{sub64}
use uwb_core.Ccp.{
  start_rx, forcetrxoff, set_delay_start, set_rx_timeout, timer_stop, timer_start, timer_relative,
  Ccp, ask,
}
use uwb_core.Ccp.Send.{pend, next_wake}

module _ {S : Type 0} where
  -- `ccp_listen` up to its wait; `rx_error` is what `uwb_start_rx` reports.
  unfoldable pub listen : Bool → ℕ → Ccp S → Option (Ccp S)
  unfolding pend
  listen rx_error dx_time c = elim (pend (ask (forcetrxoff ∷ []) c)) [
    | none ↦ none
    | some d ↦
        let delayed = if dx_time == 0 then [] else set_delay_start dx_time ∷ [] in
        let e = record (ask (delayed ++ (start_rx ∷ [])) d) {
          rx_timeout_error = false;
          start_rx_error = rx_error;
        } in
        some (if rx_error then record e { sem = e.sem + 1 } else e)
  ]

  -- The end of the wait of a blocking listen, by a release or, where none came, by its timeout.
  unfoldable pub listen_end : Ccp S → Ccp S
  listen_end c = record c { sem = if c.sem == 0 then 1 else if c.sem == 1 then 1 else c.sem - 1 }

  -- The rest of the master's event, once the beacon is sent or has failed.
  unfoldable pub master_rearm : ℕ → Ccp S → Ccp S
  master_rearm timer_rc c =
      if not c.timer_restarted && c.enabled
      then record (ask (timer_start (next_wake c) ∷ []) c) { timer_restarted = timer_rc == 0 }
      else c

  -- When the slave expects the packet; `period` is the period in the own clock's units, and `lead` how
  -- long before the receiver has to start, in the radio's µs.
  unfoldable pub expected : ℕ → ℕ → Ccp S → ℕ
  expected period lead c = sub64 ((c.local_epoch + period) % 18446744073709551616) (lead * 65536)

  -- how long it listens for it
  unfoldable pub expected_timeout : Ccp S → ℕ
  expected_timeout c =
      let one = u16 (c.blink_frame_duration + c.settings.xtalt_guard) in
      u16 (one + (c.tx_holdoff_dly + c.blink_frame_duration) * c.settings.max_cascade_rpts)

  -- The slave's event up to the wait of its first listen: a long one if the packet was lost.
  unfoldable pub slave_listen : Bool → ℕ → ℕ → Ccp S → Option (Ccp S)
  unfolding listen expected expected_timeout
  slave_listen rx_error period lead c =
      let d = record c { blink_frame_duration = c.dev.frame_duration } in
      if not d.enabled
      then some d
      else if d.rx_timeout_error
      then listen rx_error 0 (ask (set_rx_timeout d.settings.long_rx_to ∷ []) d)
      else listen rx_error (expected period lead d)
          (ask (set_rx_timeout (expected_timeout d) ∷ []) d)

  -- when the timer wakes the slave for the next packet
  unfoldable pub slave_wake : Ccp S → ℕ
  slave_wake c =
      let us =
        sub32 (sub32 (sub32 (c.usecs c.period) c.settings.os_latency) c.blink_frame_duration)
          c.dev.time_to_rx_stable in
      u32 (c.os_epoch + c.us_ticks us)

  -- "Sync lost, set a long rx timeout": the second listen, where the first could not start
  unfoldable pub slave_relisten : Bool → Ccp S → Option (Ccp S)
  unfolding listen
  slave_relisten rx_error c =
      if c.start_rx_error
      then listen rx_error 0 (ask (set_rx_timeout c.settings.long_rx_to ∷ []) c)
      else some c

  -- The rest of the slave's event, from `reset_timer` on.
  unfoldable pub slave_rearm : ℕ → Ccp S → Ccp S
  unfolding slave_wake
  slave_rearm timer_rc c =
      let lost = c.rx_timeout_error && ltb c.settings.tolerate_missed_frames c.missed_frames in
      let d =
        if lost
        then ask (timer_stop ∷ timer_relative 0 ∷ []) c
        else ask (timer_stop ∷ timer_start (slave_wake c) ∷ [])
            (record c { rx_timeout_error = false }) in
      if c.enabled then record d { timer_restarted = (timer_rc == 0) || d.timer_restarted } else c
