-- ===== src/Transport.antt =====
-- The transport layer of lib/uwb_transport: its instance, its frames and its extensions
-- (include/uwb_transport/uwb_transport.h and src/uwb_transport.c).
pub mod Extensions
pub mod Callbacks
pub mod Listen
pub mod Write
pub mod Enqueue
pub mod Sender
pub mod Transfer
pub mod Tests
use uwb_core.Common.{
  ℕ, zero, suc, ◌+◌, Bool, true, false, List, [], ◌∷◌, ◌++◌, Option, none, some, if◌then◌else◌,
  ◌==◌, length,
}
use uwb_core.Pan.Frame.{bytes_of, field}

-- `uwb_transport_frame_header_t` by its fields
pub record Header : Type 0 where
  pub fctrl : ℕ
  pub seq_num : ℕ
  pub pan_id : ℕ
  pub dst_address : ℕ
  pub src_address : ℕ
  pub code : ℕ
  pub tsp_code : ℕ

-- `sizeof(uwb_transport_frame_header_t)`
abbrev pub header_size : ℕ
header_size = 13

-- the member `array` of the union
unfoldable pub header_array : Header → List ℕ
unfolding bytes_of
header_array h =
    bytes_of 2 h.fctrl
    ++ bytes_of 1 h.seq_num
    ++ bytes_of 2 h.pan_id
    ++ bytes_of 2 h.dst_address
    ++ bytes_of 2 h.src_address
    ++ bytes_of 2 h.code
    ++ bytes_of 2 h.tsp_code

-- `(uwb_transport_frame_header_t *)rxbuf`
unfoldable pub header_of : List ℕ → Header
unfolding field
header_of bytes = record {
  fctrl = field 0 2 bytes;
  seq_num = field 2 1 bytes;
  pan_id = field 3 2 bytes;
  dst_address = field 5 2 bytes;
  src_address = field 7 2 bytes;
  code = field 9 2 bytes;
  tsp_code = field 11 2 bytes;
}

-- UWB_TRANSPORT_FCTRL, UWB_FCTRL_ACK_REQUESTED (a bit that the former has not) and
-- UWB_FCTRL_FRAME_TYPE_ACK
abbrev pub transport_fctrl : ℕ
transport_fctrl = 0x8841

abbrev pub ack_requested : ℕ
ack_requested = 0x20

abbrev pub frame_type_ack : ℕ
frame_type_ack = 2

-- UWB_DATA_CODE_TRNSPRT_REQUEST and UWB_DATA_CODE_TRNSPRT_END
abbrev pub trnsprt_request : ℕ
trnsprt_request = 0x411

abbrev pub trnsprt_end : ℕ
trnsprt_end = 0x41f

-- UWB_TRANSPORT_SUBSLOT_GUARD and UWB_TRANSPORT_PERIOD_END_GUARD
abbrev pub subslot_guard : ℕ
subslot_guard = 400

abbrev pub period_end_guard : ℕ
period_end_guard = 2000

-- What the layer reads of `struct uwb_dev`; `phr_std` is `phrMode == DWT_PHRMODE_STD`.
pub record Dev : Type 0 where
  pub uid : ℕ
  pub pan_id : ℕ
  pub my_short_address : ℕ
  pub phr_std : Bool

-- The calls of the driver.
pub data Call : Type 0 where
  write_tx : List ℕ → ℕ → Call
  write_tx_fctrl : ℕ → ℕ → Call
  start_tx : Call
  start_rx : Call
  set_delay_start : ℕ → Call
  set_wait4resp : Bool → Call
  set_wait4resp_delay : ℕ → Call
  set_rx_timeout : ℕ → Call
  set_rx_window : ℕ → ℕ → Call
  set_rxauto_disable : Bool → Call
  set_autoack : Bool → Call
  set_autoack_delay : ℕ → Call
  set_on_error_continue : Bool → Call
  noblock_wait : Call

-- `uwb_transport_extension_t`: its callbacks act on the application's state.
pub record Extension (S : Type 0) : Type 0 where
  pub tsp_code : ℕ
  pub receive_cb : ℕ → List ℕ → S → S
  pub transmit_cb : Option (S → S)

-- A received packet: the user header and the payload.
pub record RxPacket : Type 0 where
  pub tsp_code : ℕ
  pub uid : ℕ
  pub data_bytes : List ℕ

-- `uwb_transport_instance_t`. A packet to send is the bytes of its buffer; -1 as a sequence number
-- is `none`. `last_frame` is the array of the header, `ticks_10ms` what
-- `dpl_cputime_usecs_to_ticks(10000)` returns, `app` the state of the application, and `calls` the
-- driver calls so far.
pub record Transport (S : Type 0) : Type 0 where
  pub dev : Dev
  pub has_init : Bool
  pub awaiting_ack_tx : Bool
  pub request_acks : Bool
  pub frame_seq_num : ℕ
  pub ack_seq_num : Option ℕ
  pub last_frame_time : ℕ
  pub last_frame : List ℕ
  pub tx_buffer_len : ℕ
  pub tx_buffer_offset : ℕ
  pub sem : ℕ
  pub write_tx_lock : ℕ
  pub ack_sem : ℕ
  pub tx_q : List (List ℕ)
  pub rx_q : List RxPacket
  pub extension_list : List (Extension S)
  pub ticks_10ms : ℕ
  pub app : S
  pub calls : List Call

-- UWB_TRANSPORT_MTU_STD and UWB_TRANSPORT_MTU_EXT
abbrev pub mtu_of : Dev → ℕ
mtu_of d = if d.phr_std then 113 else 497

module _ {S : Type 0} where
  -- driver calls, in order
  abbrev pub ask : List Call → Transport S → Transport S
  ask cs t = record t { calls = t.calls ++ cs }

  -- `uwb_transport_init` on the instance that it found or allocated
  unfoldable pub transport_init : Transport S → Transport S
  transport_init t = record t {
    sem = 1;
    write_tx_lock = 1;
    ack_sem = 1;
    tx_q = [];
    rx_q = [];
    request_acks = true;
    has_init = true;
  }
