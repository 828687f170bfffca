-- ===== src/Transport/Callbacks/Semaphores.antt =====
-- The three semaphores of lib/uwb_transport under the callbacks: counts of 0 and 1.
use uwb_core.Common.{
  ℕ, ◌≤◌, ◌≡◌, refl, Bool, true, false, not, ◌&&◌, List, [], ◌∷◌, some, if◌then◌else◌, ◌==◌,
  if-both, get_or, none, Bool-cases, inl, inr, arith,
}
use uwb_core.Transport.{header_of, frame_type_ack, Transport}
use uwb_core.Transport.Callbacks.{
  Received, data_fctrl, transport_code, for_us, is_dup, release_sem, rx_timeout_cb, ack_received,
  queue_packet, accept_frame, data_received, rx_complete_cb, tx_begins_cb, tx_complete_cb, reset_cb,
  Event, rx_complete, rx_timeout, tx_begins, tx_complete, reset, handle, handle_all,
}
use uwb_core.Transport.Callbacks.Outcome.{noted}

-- a count after `if (dpl_sem_get_count(s) == 0) dpl_sem_release(s);`
released_le : (n : ℕ) → n ≤ 1 → (if n == 0 then 1 else n) ≤ 1
released_le n h = ground arith

pub released_one : (n : ℕ) → n ≤ 1 → (if n == 0 then 1 else n) ≡ 1
released_one n h = ground arith

module _ {S : Type 0} where
  abbrev pub IsBinary : Transport S → Type 0
  IsBinary t = (t.sem ≤ 1) × (t.write_tx_lock ≤ 1) × (t.ack_sem ≤ 1)

  abbrev Second : Bool × Transport S → Type 0
  Second r = IsBinary r.1

  release_sem-IsBinary : (t : Transport S) → IsBinary t → IsBinary (release_sem t)
  release_sem-IsBinary t (s, w, a) = (released_le t.sem s, w, a)

  accept_frame-IsBinary :
      (r : Received) (t : Transport S) → IsBinary t → IsBinary (accept_frame r t)
  unfolding accept_frame queue_packet
  accept_frame-IsBinary r t h = if-both IsBinary (r.has_mbuf && r.copied) _ _ h h

  data_received-IsBinary :
      (r : Received) (t : Transport S) → IsBinary t → IsBinary (data_received r t).1
  unfolding data_received
  data_received-IsBinary r t h =
      if-both Second (not (transport_code (header_of r.rxbuf).code)) (false, release_sem u) _ refuse
        (if-both Second (not (for_us (header_of r.rxbuf) u)) (false, release_sem u) _ refuse
          (if-both Second (is_dup r u) (false, release_sem u) (true, accept_frame r u) refuse
            (accept_frame-IsBinary r u k)))
    where
      u : Transport S
      u = noted r t

      k : IsBinary (noted r t)
      k = h

      refuse : IsBinary (release_sem (noted r t))
      refuse = release_sem-IsBinary (noted r t) k

  ack_received-IsBinary :
      (r : Received) (t : Transport S) → IsBinary t → IsBinary (ack_received r t)
  unfolding ack_received
  ack_received-IsBinary r t (s, w, a) =
      if-both IsBinary (t.ack_sem == 0)
        (record t { ack_seq_num = some (get_or r.rxbuf 2 0); ack_sem = 1 }) t (s, w, omega arith)
        (s, w, a)

  rx_complete_cb-IsBinary :
      (r : Received) (t : Transport S) → IsBinary t → IsBinary (rx_complete_cb r t).1
  unfolding rx_complete_cb
  rx_complete_cb-IsBinary r t h =
      if-both Second (r.fctrl == frame_type_ack) (true, ack_received r t) _
        (ack_received-IsBinary r t h)
        (if-both Second (not (data_fctrl r.fctrl)) (false, release_sem t) (data_received r t)
          (release_sem-IsBinary t h) (data_received-IsBinary r t h))

  rx_timeout_cb-IsBinary : (t : Transport S) → IsBinary t → IsBinary (rx_timeout_cb t).1
  unfolding rx_timeout_cb
  rx_timeout_cb-IsBinary t (s, w, a) =
      if-both Second (t.ack_sem == 0) (true, record t { ack_seq_num = none; ack_sem = 1 }) _
        (s, w, omega arith)
        (if-both Second (t.sem == 0) (true, record t { sem = 1 }) (false, t) (omega arith, w, a)
          (s, w, a))

  tx_begins_cb-IsBinary : (t : Transport S) → IsBinary t → IsBinary (tx_begins_cb t).1
  unfolding tx_begins_cb
  tx_begins_cb-IsBinary t (s, w, a) =
      if-both Second (t.write_tx_lock == 0) (true, record t { write_tx_lock = 1 }) (false, t)
        (s, omega arith, a) (s, w, a)

  tx_complete_cb-IsBinary : (t : Transport S) → IsBinary t → IsBinary (tx_complete_cb t).1
  unfolding tx_complete_cb
  tx_complete_cb-IsBinary t (s, w, a) =
      if-both Second (t.sem == 0) (true, record t { awaiting_ack_tx = false; sem = 1 })
        (false, record t { awaiting_ack_tx = false }) (omega arith, w, a) (s, w, a)

  -- After a reset nobody waits: each semaphore is free.
  reset_cb-free :
      (t : Transport S)
      → IsBinary t
      → let u = (reset_cb t).1 in (u.sem ≡ 1) × (u.write_tx_lock ≡ 1) × (u.ack_sem ≡ 1)
  unfolding reset_cb
  reset_cb-free t (s, w, a) = elim (Bool-cases (t.ack_sem == 0)) [
    | inl e ↦ rw e (released_one t.sem s, released_one t.write_tx_lock w, refl)
    | inr e ↦ rw e (released_one t.sem s, released_one t.write_tx_lock w, ground arith)
  ]

  handle-IsBinary : (e : Event) (t : Transport S) → IsBinary t → IsBinary (handle e t)
  unfolding handle
  handle-IsBinary (rx_complete r) t h = rx_complete_cb-IsBinary r t h
  handle-IsBinary rx_timeout t h = rx_timeout_cb-IsBinary t h
  handle-IsBinary tx_begins t h = tx_begins_cb-IsBinary t h
  handle-IsBinary tx_complete t h = tx_complete_cb-IsBinary t h
  handle-IsBinary reset t h =
      let (s, w, a) = reset_cb-free t h in (omega arith, omega arith, omega arith)

  handle_all-IsBinary :
      (es : List Event) (t : Transport S) → IsBinary t → IsBinary (handle_all es t)
  unfolding handle_all
  handle_all-IsBinary [] t h = h
  handle_all-IsBinary (e ∷ es) t h = handle_all-IsBinary es (handle e t) (handle-IsBinary e t h)

  -- Whatever interrupts come, in whatever order, no semaphore counts more than one; and a reset at any
  -- point frees all three, so that no task is left waiting for a frame that is gone.
  pub handle_all-reset :
      (es : List Event) (t : Transport S)
      → IsBinary t
      → let u = handle_all es t in
        let v = handle reset u in IsBinary u × (v.sem ≡ 1) × (v.write_tx_lock ≡ 1) × (v.ack_sem ≡ 1)
  unfolding handle
  handle_all-reset es t h =
      let k = handle_all-IsBinary es t h in
      let (s, w, a) = reset_cb-free (handle_all es t) k in (k, s, w, a)
