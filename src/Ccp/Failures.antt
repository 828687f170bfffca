-- ===== src/Ccp/Failures.antt =====
-- The callbacks of lib/uwb_ccp/src/uwb_ccp.c for what goes wrong: errors, timeouts and resets.
pub mod Missed
use uwb_core.Common.{
  ℕ, ◌+◌, ◌*◌, ◌%◌, Bool, true, false, ◌&&◌, [], ◌∷◌, if◌then◌else◌, ◌==◌, leb, u8, u32,
}
use uwb_core.Ccp.{ticks, ccp_master, Ccp, ask, call_all, call_superframe, forcetrxoff, timer_stop}

module _ {S : Type 0} where
  -- "Tolerating a (few) missed ccp-frame. Update time"
  unfoldable pub issue_superframe : Ccp S → Ccp S
  unfolding call_all
  issue_superframe c =
      if c.valid && leb c.missed_frames c.settings.tolerate_missed_frames
      then call_superframe (record c {
        os_epoch = u32 (c.os_epoch + ticks c c.period);
        master_epoch = (c.master_epoch + c.period * 65536) % 18446744073709551616;
        local_epoch = (c.local_epoch + c.period * 65536) % 18446744073709551616;
      })
      else c

  -- `missed_frames++`, and `issue_superframe` where the setting asks for it
  unfoldable pub miss : Ccp S → Ccp S
  unfolding issue_superframe
  miss c =
      let d = record c { missed_frames = u8 (c.missed_frames + 1) } in
      if c.settings.tolerate_missed_frames == 0 then d else issue_superframe d

  unfoldable pub error_cb : Ccp S → Bool × Ccp S
  unfolding miss
  error_cb c =
      if c.sem == 1
      then (false, c)
      else if c.sem == 0
      then (let d = if c.role == ccp_master then c else miss (record c { rx_error = true }) in
          (true, record d { sem = d.sem + 1 }))
      else (true, c)

  unfoldable pub rx_timeout_cb : Ccp S → Bool × Ccp S
  unfolding miss
  rx_timeout_cb c =
      if c.sem == 1
      then (false, c)
      else if c.sem == 0
      then (let d = miss (record c { rx_timeout_error = true }) in
          (true, record d { sem = d.sem + 1 }))
      else (true, c)

  unfoldable pub reset_cb : Ccp S → Bool × Ccp S
  reset_cb c = if c.sem == 0 then (true, record c { sem = 1 }) else (false, c)

  -- `uwb_ccp_stop`
  unfoldable pub stop : Ccp S → Ccp S
  stop c =
      let d = ask (timer_stop ∷ []) (record c { enabled = false }) in
      if d.sem == 0 then record (ask (forcetrxoff ∷ []) d) { sem = 1 } else d
