-- ===== src/Ccp.antt =====
-- Clock calibration packets: the instance of lib/uwb_ccp/include/uwb_ccp/uwb_ccp.h and the operations
-- that set it up.
pub mod Receive
pub mod Failures
pub mod Send
pub mod Timer
pub mod Tests
use uwb_core.Common.{
  ℕ, ◌+◌, ◌*◌, ◌/◌, ◌%◌, Bool, true, false, List, [], ◌∷◌, ◌++◌, Option, none, some, length, get_or,
  set, if◌then◌else◌, ◌==◌, u8, u32, sub32,
}
use uwb_core.Mac.{dtu40, sub64}

-- `uwb_ccp_blink_frame_t` by its fields
pub record Blink : Type 0 where
  pub fctrl : ℕ
  pub seq_num : ℕ
  pub euid : ℕ
  pub short_address : ℕ
  pub transmission_interval : ℕ
  pub transmission_timestamp : ℕ
  pub rpt_count : ℕ
  pub rpt_max : ℕ
  pub epoch_to_rm_us : ℕ

-- `uwb_ccp_frame_t`
pub record CcpFrame : Type 0 where
  pub blink : Blink
  pub reception_timestamp : ℕ
  pub carrier_integrator : ℕ
  pub rxttcko : ℕ

-- FCNTL_IEEE_BLINK_CCP_64
abbrev pub ccp_fctrl : ℕ
ccp_fctrl = 0xc5

-- `sizeof(uwb_ccp_blink_frame_t)` and `sizeof(frame->array)`
abbrev pub blink_size : ℕ
blink_size = 29

abbrev pub ccp_frame_size : ℕ
ccp_frame_size = 45

-- `uwb_ccp_role_t`
abbrev pub ccp_master : ℕ
ccp_master = 0

abbrev pub ccp_slave : ℕ
ccp_slave = 1

abbrev pub ccp_relay : ℕ
ccp_relay = 2

-- The settings of syscfg.yml.
pub record Settings : Type 0 where
  pub valid_threshold : ℕ
  pub tolerate_missed_frames : ℕ
  pub max_cascade_rpts : ℕ
  pub os_latency : ℕ
  pub long_rx_to : ℕ
  pub xtalt_guard : ℕ

-- What the code reads of `struct uwb_dev`; `rx_blink` is the frame in `rxbuf`, and the durations are
-- those that `uwb_phy_SHR_duration` and `uwb_phy_frame_duration` return.
pub record Dev : Type 0 where
  pub fctrl : ℕ
  pub frame_len : ℕ
  pub rx_blink : Blink
  pub rxtimestamp : ℕ
  pub lde_error : Bool
  pub carrier_integrator : ℕ
  pub rxttcko : ℕ
  pub rxttcko_enable : Bool
  pub euid : ℕ
  pub my_short_address : ℕ
  pub slot_id : ℕ
  pub tx_antenna_delay : ℕ
  pub shr_duration : ℕ
  pub frame_duration : ℕ
  pub time_to_rx_stable : ℕ

-- What the code asks of the driver, the timer and the event queue.
pub data Request : Type 0 where
  stop_rx : Request
  start_rx : Request
  start_tx : Request
  forcetrxoff : Request
  set_delay_start : ℕ → Request
  set_rx_timeout : ℕ → Request
  adj_rx_timeout : ℕ → Request
  set_wait4resp : Bool → Request
  write_tx : Blink → Request
  write_tx_fctrl : ℕ → Request
  put_postprocess : Request
  timer_stop : Request
  timer_start : ℕ → Request
  timer_relative : ℕ → Request

-- `struct uwb_ccp_instance` with its `status` and `config`. `skew` is the clock filter's compensation,
-- `usecs` the µs
-- in a number of the radio's µs, `us_ticks` the ticks of the operating system in a number of µs, `superframe_cbs` the
-- callbacks of the services, and `app` what they work on.
pub record Ccp (S : Type 0) : Type 0 where
  pub dev : Dev
  pub settings : Settings
  pub skew : ℕ → ℕ
  pub usecs : ℕ → ℕ
  pub us_ticks : ℕ → ℕ
  pub superframe_cbs : List (S → S)
  pub tof_comp_cb : Option (ℕ → ℕ)
  pub role : ℕ
  pub postprocess : Bool
  pub tx_holdoff_dly : ℕ
  pub sem : ℕ
  pub valid : Bool
  pub valid_count : ℕ
  pub start_tx_error : Bool
  pub start_rx_error : Bool
  pub rx_error : Bool
  pub rx_timeout_error : Bool
  pub timer_enabled : Bool
  pub timer_restarted : Bool
  pub enabled : Bool
  pub master_euid : ℕ
  pub master_epoch : ℕ
  pub local_epoch : ℕ
  pub os_epoch : ℕ
  pub period : ℕ
  pub idx : ℕ
  pub seq_num : ℕ
  pub missed_frames : ℕ
  pub blink_frame_duration : ℕ
  pub frames : List CcpFrame
  pub app : S
  pub requests : List Request

-- What an interrupt handler reads: the low word of the device's clock, the operating system's clock,
-- and the former again.
pub record Clock : Type 0 where
  pub systime_0 : ℕ
  pub cputime : ℕ
  pub systime_1 : ℕ

-- the operating system's time at a timestamp: the reading, less the time since then
unfoldable pub os_time : (ℕ → ℕ) → Clock → ℕ → ℕ
os_time ticks c timestamp =
    let delta_0 = sub32 c.systime_0 timestamp in
    let delta_1 = sub32 c.systime_1 timestamp in
    sub32 c.cputime (ticks ((delta_0 / 2 + delta_1 / 2) / 65536))

abbrev pub zero_blink : Blink
zero_blink = record {
  fctrl = ccp_fctrl;
  seq_num = 0;
  euid = 0;
  short_address = 0;
  transmission_interval = 0;
  transmission_timestamp = 0;
  rpt_count = 0;
  rpt_max = 0;
  epoch_to_rm_us = 0;
}

abbrev pub zero_ccp_frame : CcpFrame
zero_ccp_frame = record {
  blink = zero_blink;
  reception_timestamp = 0;
  carrier_integrator = 0;
  rxttcko = 0;
}

unfoldable pub call_all {ℓ} : {A : Type ℓ} → List (A → A) → A → A
call_all [] s = s
call_all (f ∷ fs) s = call_all fs (f s)

module _ {S : Type 0} where
  abbrev pub ask : List Request → Ccp S → Ccp S
  ask rs c = record c { requests = c.requests ++ rs }

  -- `ccp->frames[i%ccp->nframes]`
  abbrev pub frame_at : ℕ → Ccp S → CcpFrame
  frame_at i c = get_or c.frames (i % length c.frames) zero_ccp_frame

  abbrev pub set_frame_at : ℕ → CcpFrame → Ccp S → Ccp S
  set_frame_at i f c = record c { frames = set c.frames (i % length c.frames) f }

  -- "Call all available superframe callbacks"
  abbrev pub call_superframe : Ccp S → Ccp S
  call_superframe c = record c { app = call_all c.superframe_cbs c.app }

  -- `dpl_cputime_usecs_to_ticks(uwb_dwt_usecs_to_usecs(us))`
  abbrev pub ticks : Ccp S → ℕ → ℕ
  ticks c us = c.us_ticks (c.usecs us)

  -- `adjust_for_epoch_to_rm`
  unfoldable pub adjust_for_epoch_to_rm : ℕ → Ccp S → Ccp S
  adjust_for_epoch_to_rm us c = record c {
    master_epoch = sub64 c.master_epoch (us * 65536);
    local_epoch = sub64 c.local_epoch (us * 65536);
    os_epoch = sub32 c.os_epoch (ticks c us);
  }

  unfoldable pub set_postprocess : Ccp S → Ccp S
  set_postprocess c = record c { postprocess = true }

  unfoldable pub set_tof_comp_cb : Option (ℕ → ℕ) → Ccp S → Ccp S
  set_tof_comp_cb cb c = record c { tof_comp_cb = cb }
