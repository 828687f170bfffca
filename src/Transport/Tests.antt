-- ===== src/Transport/Tests.antt =====
-- The transport layer of lib/uwb_transport at work: a packet of three bytes from node 7 to node 9.
use uwb_core.Common.{
  ℕ, ◌+◌, ◌*◌, ◌≡◌, inl, refl, true, false, List, [], ◌∷◌, ◌++◌, map, replicate, none, some, length,
  arith,
}
use uwb_core.Pan.Frame.{bytes_of, field, number_of}
use uwb_core.Transport.{
  Call, header_array, header_of, Extension, Transport, transport_fctrl, ack_requested,
}
use uwb_core.Transport.Callbacks.{
  Received, rx_complete, rx_timeout, tx_begins, tx_complete, reset, same_bytes, rx_complete_cb,
  handle, handle_all,
}
use uwb_core.Transport.Callbacks.Outcome.{taken}
use uwb_core.Transport.Callbacks.Semaphores.{IsBinary, handle_all-reset}
use uwb_core.Transport.Callbacks.Duplicates.{handle_all-once, copy, also, over, completes}
use uwb_core.Transport.Extensions.{get_extension, process_rx_queue, signal_tx}
use uwb_core.Transport.Enqueue.{with_trailer}
use uwb_core.Transport.Write.{write_packet, tx_header}
use uwb_core.Transport.Write.Memory.{frame_bytes, replay, store, write_packet-frame}
use uwb_core.Transport.Transfer.{transfer}
use uwb_core.Transport.Sender.{Air, dequeue_tx}
use uwb_core.Transport.Sender.Arq.{Packet, silence, ack, Arq, try_first, try_all}
use uwb_core.Transport.Sender.Arq.Refine.{
  attempt, Regs, instance_of, signal, Agrees, left, dequeue_tx-try_all,
}
use uwb_core.Transport.Sender.Arq.Ends.{dequeue_tx-ends}

abbrev extension : Extension (List ℕ)
extension = record {
  tsp_code = 3;
  receive_cb = λ uid bytes s. uid ∷ bytes ++ s;
  transmit_cb = some (λ s. 1 ∷ s);
}

abbrev node : ℕ → Transport (List ℕ)
node address = record {
  dev = record { uid = address; pan_id = 0xdeca; my_short_address = address; phr_std = true };
  has_init = true;
  awaiting_ack_tx = false;
  request_acks = true;
  frame_seq_num = 255;
  ack_seq_num = none;
  last_frame_time = 0;
  last_frame = replicate 13 0;
  tx_buffer_len = 0;
  tx_buffer_offset = 0;
  sem = 1;
  write_tx_lock = 1;
  ack_sem = 1;
  tx_q = [];
  rx_q = [];
  extension_list = extension ∷ [];
  ticks_10ms = 10000;
  app = [];
  calls = [];
}

abbrev message : List ℕ
message = 10 ∷ 20 ∷ 30 ∷ []

abbrev queued : List ℕ
queued = with_trailer 9 3 2 message

-- the frame at the receiver, with two bytes of an older one behind it
abbrev arrival : ℕ → Received
arrival time = record {
  fctrl = transport_fctrl + ack_requested;
  frame_len = 16;
  rxbuf = frame_bytes queued (node 7) ++ (77 ∷ 78 ∷ []);
  autoack_triggered = true;
  cputime = time;
  has_mbuf = true;
  copied = true;
}

abbrev air : Air
air = record { preamble_duration = 130; data_duration = λ n. 10 * n; ack_duration = 150 }

abbrev regs : Regs
regs = record {
  ack_seq_num = none;
  awaiting_ack_tx = false;
  tx_buffer_len = 0;
  tx_buffer_offset = 0;
  calls = [];
}

abbrev packets : List Packet
packets = record { bytes = message; dst = 9; tsp_code = 3; retries = 2 } ∷ []

frame_runs :
    frame_bytes queued (node 7)
    ≡ 97 ∷ 136 ∷ 0 ∷ 202 ∷ 222 ∷ 9 ∷ 0 ∷ 7 ∷ 0 ∷ 17 ∷ 4 ∷ 3 ∷ 0 ∷ 10 ∷ 20 ∷ 30 ∷ []
unfolding header_array tx_header with_trailer bytes_of field number_of
frame_runs = refl

write_packet-frame_example :
    let u = write_packet queued 1 (node 7) in
    (cs : List Call) × (u.calls ≡ [] ++ cs)
    × (replay cs (replicate 1024 0) ≡ store 512 (frame_bytes queued (node 7)) (replicate 1024 0))
    × (u.tx_buffer_offset ≡ 512)
    × (u.tx_buffer_len ≡ length (frame_bytes queued (node 7)))
unfolding with_trailer bytes_of
write_packet-frame_example =
    write_packet-frame queued 1 (node 7) (replicate 1024 0) (omega arith) (omega arith)
      (omega arith)

transfer_example :
    (process_rx_queue (rx_complete_cb (arrival 20000) (node 9)).1).app ≡ 7 ∷ 10 ∷ 20 ∷ 30 ∷ []
unfolding get_extension same_bytes header_array tx_header with_trailer bytes_of field number_of
transfer_example =
    transfer (node 7) (node 9) 9 3 2 message (arrival 20000) (77 ∷ 78 ∷ []) extension
      (record {
        dst_fits = omega arith;
        tsp_code_fits = omega arith;
        uid_fits = omega arith;
        pan_id_fits = omega arith;
      })
      (record { bytes = refl; len = refl; type = refl; buffer = refl }) (inl refl) refl refl refl
      refl

handle_all-reset_example :
    let u = handle_all (tx_begins ∷ rx_complete (arrival 20000) ∷ rx_timeout ∷ []) (node 9) in
    let v = handle reset u in IsBinary u × (v.sem ≡ 1) × (v.write_tx_lock ≡ 1) × (v.ack_sem ≡ 1)
handle_all-reset_example =
    handle_all-reset (tx_begins ∷ rx_complete (arrival 20000) ∷ rx_timeout ∷ []) (node 9)
      (omega arith, omega arith, omega arith)

handle_all-once_example :
    (handle_all
      (rx_complete (arrival 20000) ∷ rx_complete (arrival 29999) ∷ tx_complete ∷ [])
      (node 9)).rx_q
    ≡ taken (arrival 20000)
unfolding same_bytes header_of header_array tx_header with_trailer bytes_of field number_of
handle_all-once_example =
    handle_all-once (arrival 20000) (node 9) (rx_complete (arrival 29999) ∷ tx_complete ∷ []) refl
      refl (also (copy (arrival 29999) refl (omega arith)) (also completes over))

dequeue_tx-try_all_example :
    let a : Arq (List ℕ) = record { packets = packets; seq = 255; held = false; app = [] } in
    Agrees (node 7) (try_all (signal (node 7)) (silence ∷ ack 0 ∷ []) a) (
      left (node 7) (
        dequeue_tx air 1000000 0
          (map (attempt 5) (silence ∷ ack 0 ∷ []))
          (instance_of (node 7) a regs)))
dequeue_tx-try_all_example =
    dequeue_tx-try_all (node 7) air 1000000 5 (silence ∷ ack 0 ∷ []) packets 255 [] regs
      (omega arith, tt)

dequeue_tx-ends_example :
    let a : Arq (List ℕ) = record { packets = packets; seq = 255; held = false; app = [] } in
    (t : Transport (List ℕ)) × (left (node 7) (
        dequeue_tx air 1000000 0
          (map (attempt 5) (silence ∷ silence ∷ silence ∷ []))
          (instance_of (node 7) a regs))
      ≡ some t)
    × (t.tx_q ≡ [])
    × (t.sem ≡ 1)
    × (t.write_tx_lock ≡ 1)
    × (t.ack_sem ≡ 1)
dequeue_tx-ends_example =
    dequeue_tx-ends (node 7) air 1000000 5 (silence ∷ silence ∷ silence ∷ []) packets 255 [] regs
      (omega arith, tt) (omega arith)

-- the retry is acknowledged, and the extension's callback has run
dequeue_tx_runs :
    let a : Arq (List ℕ) = record { packets = packets; seq = 255; held = false; app = [] } in
    try_all (signal (node 7)) (silence ∷ ack 0 ∷ []) a
    ≡ some (record { packets = []; seq = 0; held = false; app = 1 ∷ [] })
unfolding try_all try_first signal_tx
dequeue_tx_runs = refl
