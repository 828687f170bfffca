-- ===== src/Transport/Callbacks.antt =====
-- The callbacks of lib/uwb_transport/src/uwb_transport.c that the MAC layer calls.
pub mod Outcome
pub mod Semaphores
pub mod Duplicates
use uwb_core.Common.{
  ℕ, ◌+◌, ◌-◌, Bool, true, false, not, ◌&&◌, ◌||◌, List, [], ◌∷◌, ◌++◌, Option, none, some,
  if◌then◌else◌, ◌==◌, ltb, sub32, take, drop, get_or,
}
use uwb_core.Transport.{
  Header, header_size, header_of, transport_fctrl, ack_requested, frame_type_ack, trnsprt_request,
  trnsprt_end, RxPacket, Transport,
}

-- What a receive interrupt leaves in `struct uwb_dev`, the time at which its callback runs, and
-- whether the buffer pool gives a buffer and takes the payload into it.
pub record Received : Type 0 where
  pub fctrl : ℕ
  pub frame_len : ℕ
  pub rxbuf : List ℕ
  pub autoack_triggered : Bool
  pub cputime : ℕ
  pub has_mbuf : Bool
  pub copied : Bool

-- `!memcmp(a, b, n)` on arrays of equal length
unfoldable pub same_bytes : List ℕ → List ℕ → Bool
same_bytes [] [] = true
same_bytes [] (y ∷ ys) = false
same_bytes (x ∷ xs) [] = false
same_bytes (x ∷ xs) (y ∷ ys) = (x == y) && same_bytes xs ys

abbrev pub header_bytes : Received → List ℕ
header_bytes r = take header_size r.rxbuf

-- The payload; a frame shorter than its header has none.
abbrev pub payload : Received → List ℕ
payload r = take (r.frame_len - header_size) (drop header_size r.rxbuf)

-- The frame type is one that the layer handles; acknowledgements have been dealt with.
abbrev pub data_fctrl : ℕ → Bool
data_fctrl f =
    (f == transport_fctrl) || (f == transport_fctrl + ack_requested) || (f == frame_type_ack)

abbrev pub transport_code : ℕ → Bool
transport_code c = not (ltb c trnsprt_request || ltb trnsprt_end c)

module _ {S : Type 0} where
  -- `if (dpl_sem_get_count(&uwb_transport->sem) == 0) dpl_sem_release(&uwb_transport->sem);`
  abbrev pub release_sem : Transport S → Transport S
  release_sem t = record t { sem = if t.sem == 0 then 1 else t.sem }

  abbrev pub release_ack_sem : Transport S → Transport S
  release_ack_sem t = record t { ack_sem = if t.ack_sem == 0 then 1 else t.ack_sem }

  abbrev pub release_write_tx_lock : Transport S → Transport S
  release_write_tx_lock t = record t {
    write_tx_lock = if t.write_tx_lock == 0 then 1 else t.write_tx_lock;
  }

  unfoldable pub rx_timeout_cb : Transport S → Bool × Transport S
  rx_timeout_cb t =
      if t.ack_sem == 0
      then (true, record t { ack_seq_num = none; ack_sem = 1 })
      else if t.sem == 0
      then (true, record t { sem = 1 })
      else (false, t)

  -- an acknowledgement: `ack_seq_num = rxbuf[2]`
  unfoldable pub ack_received : Received → Transport S → Transport S
  ack_received r t =
      if t.ack_sem == 0
      then record t { ack_seq_num = some (get_or r.rxbuf 2 0); ack_sem = 1 }
      else t

  -- the same header came less than 10 ms ago
  abbrev pub is_dup : Received → Transport S → Bool
  is_dup r t =
      ltb (sub32 r.cputime t.last_frame_time) t.ticks_10ms
      && same_bytes t.last_frame (header_bytes r)

  -- `frame` is for this node, or for all.
  abbrev pub for_us : Header → Transport S → Bool
  for_us h t = (h.dst_address == t.dev.my_short_address) || (h.dst_address == 0xffff)

  -- the packet goes to `rx_q`, if there is a buffer for it
  unfoldable pub queue_packet : Received → Transport S → Transport S
  queue_packet r t =
      let h = header_of r.rxbuf in
      if r.has_mbuf && r.copied
      then record t {
        rx_q =
            t.rx_q
            ++ (record { tsp_code = h.tsp_code; uid = h.src_address; data_bytes = payload r } ∷ []);
      }
      else t

  -- the frame is remembered and queued
  unfoldable pub accept_frame : Received → Transport S → Transport S
  unfolding queue_packet
  accept_frame r t =
      queue_packet r (record t { last_frame = header_bytes r; last_frame_time = r.cputime })

  -- a data frame, from the test of `autoack_triggered` on
  unfoldable pub data_received : Received → Transport S → Bool × Transport S
  unfolding accept_frame same_bytes
  data_received r t =
      let h = header_of r.rxbuf in
      let u = record t {
        awaiting_ack_tx = if r.autoack_triggered then true else t.awaiting_ack_tx;
      } in
      if not (transport_code h.code)
      then (false, release_sem u)
      else if not (for_us h u)
      then (false, release_sem u)
      else if is_dup r u
      then (false, release_sem u)
      else (true, accept_frame r u)

  unfoldable pub rx_complete_cb : Received → Transport S → Bool × Transport S
  unfolding ack_received data_received
  rx_complete_cb r t =
      if r.fctrl == frame_type_ack
      then (true, ack_received r t)
      else if not (data_fctrl r.fctrl)
      then (false, release_sem t)
      else data_received r t

  unfoldable pub tx_begins_cb : Transport S → Bool × Transport S
  tx_begins_cb t =
      if t.write_tx_lock == 0 then (true, record t { write_tx_lock = 1 }) else (false, t)

  unfoldable pub tx_complete_cb : Transport S → Bool × Transport S
  tx_complete_cb t =
      let u = record t { awaiting_ack_tx = false } in
      if u.sem == 0 then (true, record u { sem = 1 }) else (false, u)

  unfoldable pub reset_cb : Transport S → Bool × Transport S
  reset_cb t =
      let u = if t.ack_sem == 0 then record t { ack_seq_num = none; ack_sem = 1 } else t in
      (false, release_write_tx_lock (release_sem u))

-- The interrupts of the radio, as the MAC layer passes them on.
pub data Event : Type 0 where
  rx_complete : Received → Event
  rx_timeout : Event
  tx_begins : Event
  tx_complete : Event
  reset : Event

module _ {S : Type 0} where
  unfoldable pub handle : Event → Transport S → Transport S
  unfolding rx_complete_cb rx_timeout_cb tx_begins_cb tx_complete_cb reset_cb
  handle (rx_complete r) t = (rx_complete_cb r t).1
  handle rx_timeout t = (rx_timeout_cb t).1
  handle tx_begins t = (tx_begins_cb t).1
  handle tx_complete t = (tx_complete_cb t).1
  handle reset t = (reset_cb t).1

  unfoldable pub handle_all : List Event → Transport S → Transport S
  unfolding handle
  handle_all [] t = t
  handle_all (e ∷ es) t = handle_all es (handle e t)
