-- ===== src/Ccp/Tests.antt =====
-- Clock calibration packets at work: a master, a relay and a listener of lib/uwb_ccp.
use uwb_core.Common.{◌&&◌, ℕ, suc, ◌+◌, ◌≡◌, refl, true, false, [], ◌∷◌, none, leb, arith, inl}
use uwb_core.Mac.{dtu40, sub64}
use uwb_core.Ccp.{
  Blink, Dev, Ccp, Clock, zero_blink, zero_ccp_frame, ccp_fctrl, ccp_master, ccp_slave, ccp_relay,
  adjust_for_epoch_to_rm,
}
use uwb_core.Ccp.Receive.{
  advance, count_valid, set_epochs, compensate_tof, compensate_relay, synchronise, relay_start,
}
use uwb_core.Ccp.Receive.Relay.{relay_state, sent_at, listener_state, Cascade, relayed_epochs}
use uwb_core.Ccp.Receive.Valid.{Arrival, arrive_all, arrive_all-valid}
use uwb_core.Ccp.Failures.Missed.{issued}
use uwb_core.Ccp.Send.{next_start, next_blink}
use uwb_core.Ccp.Send.Beacon.{sent_from, beacon_gap}

abbrev device : ℕ → Dev
device now = record {
  fctrl = ccp_fctrl;
  frame_len = 29;
  rx_blink = zero_blink;
  rxtimestamp = now;
  lde_error = false;
  carrier_integrator = 0;
  rxttcko = 0;
  rxttcko_enable = false;
  euid = 0x77;
  my_short_address = 0x1234;
  slot_id = 1;
  tx_antenna_delay = 16436;
  shr_duration = 130;
  frame_duration = 180;
  time_to_rx_stable = 6;
}

abbrev node : ℕ → ℕ → Ccp ℕ
node role now = record {
  dev = device now;
  settings = record {
    valid_threshold = 2;
    tolerate_missed_frames = 1;
    max_cascade_rpts = 4;
    os_latency = 1000;
    long_rx_to = 65535;
    xtalt_guard = 256;
  };
  skew = λ v. v;
  usecs = λ us. us;
  us_ticks = λ us. us;
  superframe_cbs = suc ∷ [];
  tof_comp_cb = none;
  role = role;
  postprocess = false;
  tx_holdoff_dly = 896;
  sem = 0;
  valid = false;
  valid_count = 0;
  start_tx_error = false;
  start_rx_error = false;
  rx_error = false;
  rx_timeout_error = false;
  timer_enabled = true;
  timer_restarted = false;
  enabled = true;
  master_euid = 0;
  master_epoch = 0;
  local_epoch = 0;
  os_epoch = 5000;
  period = 0x100000;
  idx = 0;
  seq_num = 0;
  missed_frames = 0;
  blink_frame_duration = 180;
  frames = zero_ccp_frame ∷ zero_ccp_frame ∷ [];
  app = 0;
  requests = [];
}

abbrev clock : Clock
clock = record { systime_0 = 0; cputime = 100000; systime_1 = 0 }

-- a packet of the master, sent at the time 2^37 of its clock
abbrev beacon : Blink
beacon = record zero_blink {
  euid = 0x99;
  transmission_interval = 0x1000000000;
  transmission_timestamp = 0x2000000000;
  rpt_max = 4;
  epoch_to_rm_us = 130;
}

abbrev relay_node : Ccp ℕ
relay_node = node ccp_relay 0x3000000000

abbrev listener : Ccp ℕ
listener = node ccp_slave 0x5000000000

cascade : Cascade clock clock beacon relay_node listener 16 0
unfolding synchronise advance count_valid set_epochs compensate_tof compensate_relay relay_start
cascade = record {
  relay_plain = refl;
  listener_plain = refl;
  relay_skew = λ v. refl;
  listener_skew = λ v. refl;
  interval = refl;
  some_interval = omega arith;
  interval_fits = omega arith;
  told = inl refl;
  told_none = λ e. refl;
  hops = omega arith;
  later = omega arith;
  soon = omega arith;
}

relayed_epochs_example :
    ((listener_state clock clock beacon relay_node listener).master_epoch
      ≡ (relay_state clock clock beacon relay_node listener).master_epoch)
    × (dtu40
          (sub64 0x5000000000 (listener_state clock clock beacon relay_node listener).local_epoch)
        ≡ dtu40 (
            sub64
              (sent_at clock clock beacon relay_node listener)
              (relay_state clock clock beacon relay_node listener).local_epoch
            + 0))
relayed_epochs_example = relayed_epochs clock clock beacon relay_node listener 16 0 cascade

abbrev arrival : ℕ → Arrival
arrival ts = record {
  clock = clock;
  blink = record beacon { transmission_timestamp = ts };
  dev = device ts;
}

arrive_all-valid_example :
    (arrive_all (arrival 0x2000000000 ∷ arrival 0x3000000000 ∷ []) (node ccp_slave 0)).valid
    ≡ leb 2 8 && leb 2 2
unfolding synchronise advance count_valid set_epochs compensate_tof compensate_relay
    adjust_for_epoch_to_rm
arrive_all-valid_example =
    arrive_all-valid (arrival 0x2000000000) (arrival 0x3000000000 ∷ []) (node ccp_slave 0)
      (omega arith) refl (refl, tt)

abbrev synced : Ccp ℕ
synced = record (node ccp_slave 0) { valid = true; local_epoch = 1000; master_epoch = 2000 }

-- the count of misses goes round
issued_runs : issued 1 0 300 ≡ 3
issued_runs = refl

beacon_gap_example :
    (next_blink (sent_from clock 0 (node ccp_master 0))).transmission_timestamp
    ≡ (next_blink (node ccp_master 0)).transmission_timestamp
      + (next_blink (node ccp_master 0)).transmission_interval
      + 16384
unfolding next_start
beacon_gap_example =
    beacon_gap clock 0 (node ccp_master 0) refl refl (omega arith) (omega arith) (omega arith)
      (omega arith)
