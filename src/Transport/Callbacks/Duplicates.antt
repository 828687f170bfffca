-- ===== src/Transport/Callbacks/Duplicates.antt =====
-- Repetitions of a frame: what the sender's tries for want of an acknowledgement look like to the
-- receiver.
use uwb_core.Common.{
  if◌then◌else◌, ℕ, ◌<◌, ◌≡◌, refl, sym, Bool, true, false, not, ◌&&◌, List, [], ◌∷◌, ◌++◌, some,
  none, ◌==◌, ==_refl, lt→ltb, sub32, get_or, if-both, arith, inl, inr, Bool-cases,
}
use mathlib.Core.List.{append-nil}
use uwb_core.Transport.{header_of, RxPacket, Transport}
use uwb_core.Transport.Callbacks.{
  Received, same_bytes, header_bytes, data_fctrl, transport_code, for_us, is_dup, release_sem,
  rx_timeout_cb, ack_received, queue_packet, accept_frame, data_received, rx_complete_cb,
  tx_begins_cb, tx_complete_cb, reset_cb, Event, rx_complete, rx_timeout, tx_begins, tx_complete,
  reset, handle, handle_all,
}
use uwb_core.Transport.Callbacks.Outcome.{noted, is_ack, takes, taken, packet_of}

same_bytes_refl : (xs : List ℕ) → same_bytes xs xs ≡ true
unfolding same_bytes
same_bytes_refl [] = refl
same_bytes_refl (x ∷ xs) = rw (==_refl x, same_bytes_refl xs) refl

and_left : (a b : Bool) → a && b ≡ true → a ≡ true
and_left true b h = refl
and_left false b h = absurd (ground arith)

and_right : (a b : Bool) → a && b ≡ true → b ≡ true
and_right true b h = h
and_right false b h = absurd (ground arith)

false_of_not : (a : Bool) → not a ≡ true → a ≡ false
false_of_not true h = absurd (ground arith)
false_of_not false h = refl

-- An interrupt that brings no other frame than `r` again, within `k` ticks.
pub data Echo (r : Received) (k : ℕ) : Event → Type 0 where
  copy :
      (x : Received)
      → header_bytes x ≡ header_bytes r
      → sub32 x.cputime r.cputime < k
      → Echo r k (rx_complete x)
  timeout : Echo r k rx_timeout
  begins : Echo r k tx_begins
  completes : Echo r k tx_complete
  resets : Echo r k reset

-- an interrupt of each kind, in order
pub data Echoes (r : Received) (k : ℕ) : List Event → Type 0 where
  over : Echoes r k []
  also : {e : Event} {es : List Event} → Echo r k e → Echoes r k es → Echoes r k (e ∷ es)

module _ {S : Type 0} (r : Received) (k : ℕ) (q : List RxPacket) where
  -- The frame is the one that the instance remembers, and `q` is its queue.
  abbrev Remembers : Transport S → Type 0
  Remembers t =
      (t.last_frame ≡ header_bytes r)
      × (t.last_frame_time ≡ r.cputime)
      × (t.ticks_10ms ≡ k)
      × (t.rx_q ≡ q)

  abbrev Second : Bool × Transport S → Type 0
  Second p = Remembers p.1

  is_dup-copy :
      (x : Received) (t : Transport S)
      → header_bytes x ≡ header_bytes r
      → sub32 x.cputime r.cputime < k
      → Remembers t
      → is_dup x t ≡ true
  is_dup-copy x t same soon (f, c, n, _) =
      rw
        (f, c, n, same, lt→ltb (sub32 x.cputime r.cputime) k soon, same_bytes_refl (header_bytes r))
        refl

  data_received-copy :
      (x : Received) (t : Transport S)
      → is_dup x t ≡ true
      → Remembers t
      → Remembers (data_received x t).1
  unfolding data_received
  data_received-copy x t dup h =
      if-both Second (not (transport_code (header_of x.rxbuf).code))
        (false, release_sem (noted x t)) _ h
        (if-both Second (not (for_us (header_of x.rxbuf) (noted x t)))
          (false, release_sem (noted x t)) _ h (rw dup h))

  rx_complete_cb-copy :
      (x : Received) (t : Transport S)
      → header_bytes x ≡ header_bytes r
      → sub32 x.cputime r.cputime < k
      → Remembers t
      → Remembers (rx_complete_cb x t).1
  unfolding rx_complete_cb ack_received
  rx_complete_cb-copy x t same soon h =
      if-both Second (is_ack x) (true, ack_received x t) _
        (if-both Remembers (t.ack_sem == 0)
          (record t { ack_seq_num = some (get_or x.rxbuf 2 0); ack_sem = 1 }) t h h)
        (if-both Second (not (data_fctrl x.fctrl)) (false, release_sem t) (data_received x t) h
          (data_received-copy x t (is_dup-copy x t same soon h) h))

  rx_timeout_cb-Remembers : (t : Transport S) → Remembers t → Remembers (rx_timeout_cb t).1
  unfolding rx_timeout_cb
  rx_timeout_cb-Remembers t h =
      if-both Second (t.ack_sem == 0) (true, record t { ack_seq_num = none; ack_sem = 1 }) _ h
        (if-both Second (t.sem == 0) (true, record t { sem = 1 }) (false, t) h h)

  reset_cb-Remembers : (t : Transport S) → Remembers t → Remembers (reset_cb t).1
  unfolding reset_cb
  reset_cb-Remembers t h =
      if-both Remembers (t.ack_sem == 0) (record t { ack_seq_num = none; ack_sem = 1 }) t h h

  handle-Echo : {e : Event} (t : Transport S) → Echo r k e → Remembers t → Remembers (handle e t)
  unfolding handle tx_begins_cb tx_complete_cb
  handle-Echo t (copy x same soon) h = rx_complete_cb-copy x t same soon h
  handle-Echo t timeout h = rx_timeout_cb-Remembers t h
  handle-Echo t begins h =
      if-both Second (t.write_tx_lock == 0) (true, record t { write_tx_lock = 1 }) (false, t) h h
  handle-Echo t completes h =
      if-both Second (t.sem == 0) (true, record t { awaiting_ack_tx = false; sem = 1 })
        (false, record t { awaiting_ack_tx = false }) h h
  handle-Echo t resets h = reset_cb-Remembers t h

  handle_all-Echoes :
      {es : List Event} (t : Transport S)
      → Echoes r k es
      → Remembers t
      → Remembers (handle_all es t)
  unfolding handle_all
  handle_all-Echoes t over h = h
  handle_all-Echoes t (also {e} e' es') h = handle_all-Echoes (handle e t) es' (handle-Echo t e' h)

module _ {S : Type 0} (r : Received) (t : Transport S) where
  accept_frame-Remembers : Remembers r t.ticks_10ms (t.rx_q ++ taken r) (accept_frame r (noted r t))
  unfolding accept_frame queue_packet
  accept_frame-Remembers = elim (Bool-cases (r.has_mbuf && r.copied)) [
    | inl e ↦ rw e (refl, refl, refl, refl)
    | inr e ↦ rw e (refl, refl, refl, sym (append-nil t.rx_q))
  ]

  -- a frame that is taken goes through all tests
  rx_complete_cb-takes :
      is_ack r ≡ false → takes r t ≡ true → (rx_complete_cb r t).1 ≡ accept_frame r (noted r t)
  unfolding rx_complete_cb data_received
  rx_complete_cb-takes no_ack h =
      let own = and_left (data_fctrl r.fctrl) _ h in
      let news = and_right (data_fctrl r.fctrl) _ h in
      let code = and_left (transport_code (header_of r.rxbuf).code) _ news in
      let rest = and_right (transport_code (header_of r.rxbuf).code) _ news in
      let us = and_left (for_us (header_of r.rxbuf) t) _ rest in
      let fresh = false_of_not (is_dup r t) (and_right (for_us (header_of r.rxbuf) t) _ rest) in
      rw (own, no_ack, code, us, fresh) refl

  -- A frame that the layer takes is queued once if there is a buffer for it that it can be copied to,
  -- and else never: whatever interrupts follow, if all receptions among them are of a frame with its
  -- header within 10 ms of it, the queue has its packet once and no other, or, where there was no
  -- such buffer, no packet of it or of the repetitions, though there may be buffers for these.
  pub handle_all-once :
      (es : List Event)
      → is_ack r ≡ false
      → takes r t ≡ true
      → Echoes r t.ticks_10ms es
      → (handle_all (rx_complete r ∷ es) t).rx_q
        ≡ t.rx_q ++ (if r.has_mbuf && r.copied then packet_of r ∷ [] else [])
  unfolding handle_all handle
  handle_all-once es no_ack h echoes =
      (handle_all-Echoes r t.ticks_10ms (t.rx_q ++ taken r) (rx_complete_cb r t).1 echoes
        (rw (rx_complete_cb-takes no_ack h) accept_frame-Remembers)).3
