-- ===== src/Transport/Write.antt =====
-- `uwb_transport_write_tx` and `uwb_transport_start_tx` of lib/uwb_transport/src/uwb_transport.c.
pub mod Memory
use uwb_core.Common.{
  ℕ, zero, suc, ◌+◌, ◌-◌, ◌*◌, ◌/◌, ◌%◌, Bool, true, false, List, [], ◌∷◌, ◌++◌, if◌then◌else◌,
  ◌==◌, ltb, u8, u16, length, take, drop,
}
use uwb_core.Pan.Frame.{field}
use uwb_core.Transport.{
  Header, header_size, header_array, transport_fctrl, ack_requested, trnsprt_request, Call,
  write_tx, write_tx_fctrl, start_tx, set_delay_start, set_wait4resp, set_rx_timeout,
  set_rxauto_disable, noblock_wait, Transport, ask,
}

-- The 16-bit word that starts `k` bytes before the end of a packet. The three last words of a packet
-- in the queue are its destination, its transport code and its retries.
abbrev pub tail_word : ℕ → List ℕ → ℕ
tail_word k om = field (length om - k) 2 om

abbrev pub trailer_size : ℕ
trailer_size = 6

-- `DPL_MBUF_PKTLEN(om) - 6`
abbrev pub tx_len : List ℕ → ℕ
tx_len om = length om - trailer_size

-- `sizeof(buf)`
abbrev pub buf_size : ℕ
buf_size = 128

abbrev pub tx_buffer_offset_of : ℕ → ℕ
tx_buffer_offset_of idx = if (idx % 2) == 0 then 0 else 512

-- `cpy_len`, where `n` bytes are left
abbrev pub cpy_len : ℕ → ℕ
cpy_len n = if ltb buf_size n then buf_size else n

-- The loop that copies the payload to the device, on fuel.
unfoldable pub copy_payload : ℕ → List ℕ → ℕ → ℕ → List Call
copy_payload zero om mbuf_offset device_offset = []
copy_payload (suc fuel) om mbuf_offset device_offset =
    let n = cpy_len (tx_len om - mbuf_offset) in
    let rest = copy_payload fuel om (mbuf_offset + n) (device_offset + n) in
    if ltb mbuf_offset (tx_len om)
    then noblock_wait ∷ write_tx (take n (drop mbuf_offset om)) device_offset ∷ rest
    else []

module _ {S : Type 0} where
  -- The header; the caller has counted the sequence number up.
  unfoldable pub tx_header : List ℕ → Transport S → Header
  tx_header om t = record {
    fctrl = if t.request_acks then transport_fctrl + ack_requested else transport_fctrl;
    seq_num = t.frame_seq_num;
    pan_id = t.dev.pan_id;
    dst_address = tail_word 6 om;
    src_address = t.dev.uid;
    code = trnsprt_request;
    tsp_code = tail_word 4 om;
  }

  -- `uwb_transport_write_tx`; the length is enough fuel, since each turn copies a byte at least.
  unfoldable pub write_packet : List ℕ → ℕ → Transport S → Transport S
  unfolding tx_header copy_payload header_array
  write_packet om idx t =
      let u = record t { frame_seq_num = u8 (t.frame_seq_num + 1) } in
      let off = tx_buffer_offset_of idx in
      let written =
        write_tx (header_array (tx_header om u)) off
        ∷ copy_payload (length om) om 0 (header_size + off) in
      record (ask written u) {
        tx_buffer_len = u16 (header_size + tx_len om);
        tx_buffer_offset = off;
      }

  -- `uwb_transport_start_tx`; `ack_duration` is `uwb_phy_frame_duration(dev_inst, 5)`.
  unfoldable pub start_packet : ℕ → ℕ → Transport S → Transport S
  start_packet ack_duration dx_time t =
      let delayed = if dx_time == 0 then [] else set_delay_start dx_time ∷ [] in
      let acked =
        if t.request_acks
        then set_wait4resp true
          ∷ set_rx_timeout (12 + 10 + ack_duration)
          ∷ set_rxauto_disable true
          ∷ []
        else [] in
      ask (delayed ++ acked ++ (write_tx_fctrl t.tx_buffer_len t.tx_buffer_offset ∷ start_tx ∷ []))
        t
