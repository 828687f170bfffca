-- ===== src/Pan/Instance.antt =====
-- The state of a PAN instance and of its device, and the operations that set it up.
use uwb_core.Common.{
  ℕ, ◌%◌, Bool, true, false, List, [], ◌∷◌, ◌++◌, Option, none, some, length, get_or, set,
  if◌then◌else◌, ◌==◌,
}
use uwb_core.PanUtils.{ReqResp}
use uwb_core.Pan.Frame.{PanFrame, blink_tag, array, frame_size}

-- What the code uses of `struct uwb_dev`; `fctrl` is `fctrl_array[0]`, and
-- `euid` is `my_long_address` too, its other name in the union.
pub record Dev : Type 0 where
  pub fctrl : ℕ
  pub frame_len : ℕ
  pub rxbuf : List ℕ
  pub rxtimestamp : ℕ
  pub uid : ℕ
  pub pan_id : ℕ
  pub slot_id : ℕ
  pub euid : ℕ

-- What the code asks of the driver, the event queue and the callout of the lease.
pub data Command : Type 0 where
  stop_rx : Command
  start_rx : Command
  start_tx : Command
  set_wait4resp : Bool → Command
  write_tx_fctrl : ℕ → Command
  write_tx : List ℕ → Command
  set_delay_start : ℕ → Command
  set_rx_timeout : ℕ → Command
  put_postprocess : Command
  stop_lease : Command
  start_lease_ms : ℕ → Command

-- `enum uwb_pan_role_t`
abbrev pub role_master : ℕ
role_master = 1

abbrev pub role_slave : ℕ
role_slave = 2

abbrev pub role_relay : ℕ
role_relay = 3

-- `struct uwb_pan_instance` with its `config`, `status` and `control`; `nframes` is the length of
-- `frames`. `store` is what the request callback works on, and `commands` what was asked so far.
pub record Pan (S : Type 0) : Type 0 where
  pub sem : ℕ
  pub valid : Bool
  pub start_tx_error : Bool
  pub lease_expired : Bool
  pub postprocess : Bool
  pub request_cb : Option (ℕ → ReqResp → S → Bool × ReqResp × S)
  pub role : ℕ
  pub network_role : ℕ
  pub lease_time : ℕ
  pub rx_timeout_period : ℕ
  pub idx : ℕ
  pub frames : List PanFrame
  pub dev : Dev
  pub store : S
  pub commands : List Command

abbrev pub zero_frame : PanFrame
zero_frame = record {
  fctrl = blink_tag;
  seq_num = 0;
  long_address = 0;
  rpt_count = 0;
  rpt_max = 0;
  code = 0;
  req = record {
    role = 0;
    lease_time = 0;
    pan_id = 0;
    short_address = 0;
    slot_id = 0;
    padding = 0;
  };
}

-- the commands that write a whole frame
abbrev pub write_frame : PanFrame → List Command
write_frame f = write_tx_fctrl frame_size ∷ write_tx (array f) ∷ []

module _ {S : Type 0} where
  abbrev pub ask : List Command → Pan S → Pan S
  ask cs p = record p { commands = p.commands ++ cs }

  -- `pan->frames[(pan->idx)%pan->nframes]`
  abbrev pub frame : Pan S → PanFrame
  frame p = get_or p.frames (p.idx % length p.frames) zero_frame

  abbrev pub set_frame : PanFrame → Pan S → Pan S
  set_frame f p = record p { frames = set p.frames (p.idx % length p.frames) f }

  unfoldable pub set_postprocess : Pan S → Pan S
  set_postprocess p = record p { postprocess = true }

  unfoldable pub set_request_cb : (ℕ → ReqResp → S → Bool × ReqResp × S) → Pan S → Pan S
  set_request_cb cb p = record p { request_cb = some cb }

  -- `uwb_pan_init` on the instance that was found, or on a zeroed one.
  unfoldable pub init : Pan S → Pan S
  unfolding set_postprocess
  init p = record (set_postprocess (record p { sem = 1 })) { request_cb = none; valid = true }

  -- `uwb_pan_set_frames`, for all of the frames
  unfoldable pub set_frames : List PanFrame → Pan S → Pan S
  set_frames fs p = record p { frames = fs }

  unfoldable pub start : ℕ → ℕ → Pan S → Pan S
  start role network_role p =
      let q = record p { role = role % 16; network_role = network_role % 65536 } in
      if q.role == role_slave then record q { idx = 1; valid = false } else q
