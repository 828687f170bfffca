-- ===== src/Transport/Callbacks/Outcome.antt =====
-- What a reception makes of the queue: one description for all branches of `rx_complete_cb`.
use uwb_core.Common.{
  ◌≡◌, refl, sym, ◌∙◌, Bool, true, false, not, ◌&&◌, List, [], ◌∷◌, ◌++◌, if◌then◌else◌, ◌==◌, inl,
  inr, Bool-cases,
}
use mathlib.Core.List.{append-nil}
use uwb_core.Transport.{header_of, frame_type_ack, RxPacket, Transport}
use uwb_core.Transport.Callbacks.{
  Received, payload, data_fctrl, transport_code, for_us, is_dup, release_sem, queue_packet,
  accept_frame, data_received, rx_complete_cb,
}

-- the packet that a frame carries
abbrev pub packet_of : Received → RxPacket
packet_of r = record {
  tsp_code = (header_of r.rxbuf).tsp_code;
  uid = (header_of r.rxbuf).src_address;
  data_bytes = payload r;
}

-- what it adds to the queue, if it is taken: nothing where there is no buffer
abbrev pub taken : Received → List RxPacket
taken r = if r.has_mbuf && r.copied then packet_of r ∷ [] else []

abbrev pub is_ack : Received → Bool
is_ack r = r.fctrl == frame_type_ack

module _ {S : Type 0} where
  -- A data frame of the layer for this node that is no repetition.
  abbrev pub is_news : Received → Transport S → Bool
  is_news r t =
      transport_code (header_of r.rxbuf).code && (for_us (header_of r.rxbuf) t && not (is_dup r t))

  abbrev pub takes : Received → Transport S → Bool
  takes r t = data_fctrl r.fctrl && is_news r t

  -- the instance whose acknowledgement is on its way
  abbrev pub noted : Received → Transport S → Transport S
  noted r t = record t { awaiting_ack_tx = if r.autoack_triggered then true else t.awaiting_ack_tx }

  -- what no reception touches
  abbrev pub Kept : Transport S → Transport S → Type 0
  Kept t u = (u.has_init ≡ t.has_init) × (u.extension_list ≡ t.extension_list) × (u.app ≡ t.app)

  -- The result, the queue and the semaphore after a reception, which is taken or refused.
  abbrev pub Reception : Bool → Received → Transport S → Bool × Transport S → Type 0
  Reception b r t (result, u) =
      (result ≡ b)
      × (u.rx_q ≡ t.rx_q ++ (if b then taken r else []))
      × (u.sem ≡ (if b then t.sem else (if t.sem == 0 then 1 else t.sem)))
      × Kept t u

  accept_frame-Reception :
      (r : Received) (t : Transport S) → Reception true r t (true, accept_frame r t)
  unfolding accept_frame queue_packet
  accept_frame-Reception r t = elim (Bool-cases (r.has_mbuf && r.copied)) [
    | inl e ↦ rw e (refl, refl, refl, (refl, refl, refl))
    | inr e ↦ rw e (refl, sym (append-nil t.rx_q), refl, (refl, refl, refl))
  ]

  refused :
      (r : Received) (t u : Transport S)
      → u.rx_q ≡ t.rx_q
      → u.sem ≡ t.sem
      → Kept t u
      → Reception false r t (false, release_sem u)
  refused r t u q s k = (refl, q ∙ sym (append-nil t.rx_q), rw s refl, k)

  data_received-Reception :
      (r : Received) (t : Transport S) → Reception (is_news r t) r t (data_received r t)
  unfolding data_received
  data_received-Reception r t = elim (Bool-cases (transport_code (header_of r.rxbuf).code)) [
    | inr e ↦ rw e (refused r t (noted r t) refl refl (refl, refl, refl))
    | inl e ↦ elim (Bool-cases (for_us (header_of r.rxbuf) t)) [
      | inr f ↦ rw (e, f) (refused r t (noted r t) refl refl (refl, refl, refl))
      | inl f ↦ elim (Bool-cases (is_dup r t)) [
        | inl d ↦ rw (e, f, d) (refused r t (noted r t) refl refl (refl, refl, refl))
        | inr d ↦ rw (e, f, d) (accept_frame-Reception r (noted r t))
      ]
    ]
  ]

  -- A frame that is no acknowledgement is queued as one packet exactly if it is a data frame of the
  -- layer, for this node or for all, that does not repeat the header of the frame before it within
  -- 10 ms, and there is a buffer; a frame that is refused frees the task that waits.
  pub rx_complete_cb-Reception :
      (r : Received) (t : Transport S)
      → is_ack r ≡ false
      → Reception (takes r t) r t (rx_complete_cb r t)
  unfolding rx_complete_cb
  rx_complete_cb-Reception r t no_ack = elim (Bool-cases (data_fctrl r.fctrl)) [
    | inr e ↦ rw (e, no_ack) (refused r t t refl refl (refl, refl, refl))
    | inl e ↦ rw (e, no_ack) (data_received-Reception r t)
  ]
