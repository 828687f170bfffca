-- ===== src/Ccp/Receive.antt =====
-- `rx_complete_cb` of lib/uwb_ccp/src/uwb_ccp.c: a packet that a slave or a relay receives.
pub mod Relay
pub mod Valid
use uwb_core.Common.{
  ℕ, ◌+◌, ◌-◌, ◌*◌, ◌/◌, ◌%◌, Bool, true, false, not, ◌&&◌, ◌||◌, List, [], ◌∷◌, ◌++◌, Option, none,
  some, length, if◌then◌else◌, ◌==◌, ltb, leb, u8, u16, u32, sub32,
}
use uwb_core.Mac.{dtu40, sub64}
use uwb_core.Ccp.{
  ticks, Blink, CcpFrame, ccp_fctrl, blink_size, ccp_frame_size, ccp_master, ccp_relay, stop_rx,
  start_tx, set_delay_start, adj_rx_timeout, write_tx, write_tx_fctrl, put_postprocess, Ccp, Clock,
  os_time, ask, frame_at, set_frame_at, call_all, call_superframe, adjust_for_epoch_to_rm,
}

-- "Assume ccp intervals are a multiple of 0x10000 dwt usec": the master's interval in a relayed frame
unfoldable pub master_interval : ℕ → ℕ
master_interval interval = (interval / 4294967296 + 1) * 4294967296

module _ {S : Type 0} where
  -- The frame is older than the one before, or another master's.
  abbrev pub starts_anew : Blink → Ccp S → Bool
  starts_anew b c = ltb b.transmission_timestamp c.master_epoch || not (b.euid == c.master_euid)

  -- `valid_count` of a frame that continues the series, up to the last that counts; the field has
  -- three bits
  abbrev pub counted : Ccp S → ℕ
  counted c =
      if ltb c.valid_count (c.settings.valid_threshold - 1)
      then (c.valid_count + 1) % 8
      else c.valid_count

  -- `valid` then; the last that counts is -1 for a threshold of 0
  abbrev pub reached : Ccp S → Bool
  reached c =
      not (c.settings.valid_threshold == 0) && (counted c == (c.settings.valid_threshold - 1))

  -- the test of the number of packets
  unfoldable pub count_valid : Blink → Ccp S → Ccp S
  count_valid b c = record c {
    master_euid = if starts_anew b c then b.euid else c.master_euid;
    valid = if starts_anew b c then c.settings.valid_threshold == 0 else c.valid || reached c;
    valid_count = if starts_anew b c then 0 else counted c;
  }

  -- the epochs of the frame, on the master's clock and on the own
  unfoldable pub set_epochs : Blink → Ccp S → Ccp S
  unfolding adjust_for_epoch_to_rm
  set_epochs b c = adjust_for_epoch_to_rm b.epoch_to_rm_us (record c {
    master_epoch = b.transmission_timestamp;
    local_epoch = c.dev.rxtimestamp;
    period = b.transmission_interval / 65536;
  })

  -- what the receiver keeps of a frame
  abbrev pub kept_frame : Blink → Ccp S → CcpFrame
  kept_frame b c = record {
    blink = b;
    reception_timestamp = c.dev.rxtimestamp;
    carrier_integrator = c.dev.carrier_integrator;
    rxttcko = if c.dev.rxttcko_enable then c.dev.rxttcko else 0;
  }

  -- "Compensate for time of flight"
  unfoldable pub compensate_tof : CcpFrame × Ccp S → CcpFrame × Ccp S
  compensate_tof (f, c) = elim c.tof_comp_cb [
    | none ↦ (f, c)
    | some cb ↦
        let epoch = sub64 c.local_epoch (u32 (c.skew (cb f.blink.short_address))) in
        (record f { reception_timestamp = epoch }, record c { local_epoch = epoch })
  ]

  -- "Compensate if not receiving the master ccp packet directly"
  unfoldable pub compensate_relay : CcpFrame × Ccp S → CcpFrame × Ccp S
  unfolding master_interval
  compensate_relay (f, c) =
      let whole = master_interval f.blink.transmission_interval in
      let delay = whole - f.blink.transmission_interval in
      let own = c.skew delay in
      let epoch = dtu40 (sub64 c.local_epoch own) in
      if f.blink.rpt_count == 0 then (f, c) else (
        record f { reception_timestamp = epoch; carrier_integrator = 0; rxttcko = 0 },
        record c {
          period = u32 (whole / 65536);
          master_epoch = sub64 c.master_epoch delay;
          local_epoch = epoch;
          os_epoch = sub32 c.os_epoch (ticks c (own / 65536));
        },
      )

  -- the confirmed advance of the frame, and the time of the operating system
  unfoldable pub advance : Clock → Blink → Ccp S → Ccp S
  unfolding os_time
  advance clock b c = record c {
    idx = u16 (c.idx + 1);
    seq_num = b.seq_num;
    missed_frames = 0;
    os_epoch = os_time (ticks c) clock (u32 c.dev.rxtimestamp);
    rx_timeout_error = false;
  }

  -- from the confirmed advance of the frame to the compensations
  unfoldable pub synchronise : Clock → Blink → Ccp S → CcpFrame × Ccp S
  unfolding advance count_valid set_epochs compensate_tof compensate_relay
  synchronise clock b c =
      compensate_relay
        (compensate_tof (kept_frame b c, set_epochs b (count_valid b (advance clock b c))))

  -- when the relay's transmission starts, in the relay's own time
  unfoldable pub relay_start : CcpFrame → Ccp S → ℕ
  relay_start f c =
      let holdoff = u8 (f.blink.rpt_count + 1) * (c.tx_holdoff_dly * 65536) in
      let shift = c.dev.slot_id % 4 * (c.blink_frame_duration * 65536) in
      (f.reception_timestamp + holdoff + shift) / 512 % 2147483648 * 512

  -- and the delay since the reception, with that of the antenna, on the master's clock
  unfoldable pub relay_delay : CcpFrame → Ccp S → ℕ
  unfolding relay_start
  relay_delay f c = c.skew (sub64 (relay_start f c + c.dev.tx_antenna_delay) f.reception_timestamp)

  -- the frame that the relay sends
  unfoldable pub relay_blink : CcpFrame → Ccp S → Blink
  unfolding relay_delay
  relay_blink f c = record f.blink {
    short_address = c.dev.my_short_address;
    rpt_count = u8 (f.blink.rpt_count + 1);
    transmission_timestamp =
        (f.blink.transmission_timestamp + relay_delay f c) % 18446744073709551616;
    transmission_interval = dtu40 (sub64 f.blink.transmission_interval (relay_delay f c));
  }

  -- "Cascade relay of ccp packet"; `tx_error` is what `uwb_start_tx` reports.
  unfoldable pub relay : Bool → CcpFrame → Ccp S → Ccp S
  unfolding relay_blink
  relay tx_error f c =
      if (c.role == ccp_relay) && (c.valid && ltb f.blink.rpt_count f.blink.rpt_max)
      then record (ask
          (set_delay_start (relay_start f c)
            ∷ write_tx (relay_blink f c)
            ∷ write_tx_fctrl blink_size
            ∷ start_tx
            ∷ [])
          c) { start_tx_error = tx_error }
      else c

  -- the callbacks of the superframe, the postprocessing, and the end of the wait
  unfoldable pub announce : Ccp S → Ccp S
  unfolding call_all
  announce c =
      let d = call_superframe c in
      let e = if d.postprocess && d.valid then ask (put_postprocess ∷ []) d else d in
      record e { sem = e.sem + 1 }

  -- a frame whose bytes are copied and that has no error
  unfoldable pub good_frame : Clock → Bool → ℕ → Blink → Ccp S → Ccp S
  unfolding synchronise relay announce
  good_frame clock tx_error i b c =
      let (f, d) = synchronise clock b (ask (stop_rx ∷ []) c) in
      announce (relay tx_error f (set_frame_at i f d))

  unfoldable pub rx_complete_cb : Clock → Bool → Ccp S → Bool × Ccp S
  unfolding good_frame
  rx_complete_cb clock tx_error c =
      let i = c.idx + 1 in
      let b = c.dev.rx_blink in
      let copied = set_frame_at i (record (frame_at i c) { blink = b }) c in
      if c.role == ccp_master
      then (true, c)
      else if not (c.dev.fctrl == ccp_fctrl)
      then if c.sem == 0
        then (true, ask (adj_rx_timeout c.settings.long_rx_to ∷ []) c)
        else (false, c)
      else if not (c.sem == 0)
      then (false, c)
      else if not (leb blink_size c.dev.frame_len && leb c.dev.frame_len ccp_frame_size)
      then (true, c)
      else if c.dev.lde_error
      then (true, copied)
      else (false, good_frame clock tx_error i b copied)
