-- ===== src/Transport/Sender.antt =====
-- `uwb_transport_dequeue_tx` of lib/uwb_transport/src/uwb_transport.c.
pub mod Window
pub mod Arq
use uwb_core.Common.{
  ℕ, zero, suc, ◌+◌, ◌-◌, ◌*◌, Bool, true, false, not, ◌&&◌, ◌||◌, List, [], ◌∷◌, ◌++◌, Option,
  none, some, if◌then◌else◌, ◌==◌, ltb, u16, length, take,
}
use uwb_core.Pan.Frame.{bytes_of}
use uwb_core.Mac.{dtu40, sub64}
use uwb_core.Transport.{header_size, subslot_guard, period_end_guard, Transport}
use uwb_core.Transport.Extensions.{signal_tx}
use uwb_core.Transport.Callbacks.{
  Event, handle_all, release_sem, release_ack_sem, release_write_tx_lock,
}
use uwb_core.Transport.Listen.{pend_sem, pend_ack_sem, pend_write_tx_lock}
use uwb_core.Transport.Write.{tail_word, write_packet, start_packet}

-- The durations that the driver computes, in units of 2^16 of its clock, rounded up: of the preamble,
-- of a number of bytes, and, in µs, of an acknowledgement.
pub record Air : Type 0 where
  pub preamble_duration : ℕ
  pub data_duration : ℕ → ℕ
  pub ack_duration : ℕ

-- What a turn of the loop meets: whether the transmission fails to start, the interrupts that come
-- once it has started, the time of the device, and whether `dpl_mbuf_extend` obliges.
pub record Attempt : Type 0 where
  pub start_tx_error : Bool
  pub events : List Event
  pub systime : ℕ
  pub extended : Bool

-- The local variables: `holds` is `mp != NULL`, and the packet that is held is the queue's first.
pub record Sender : Type 0 where
  pub holds : Bool
  pub membuf_transferred : Bool
  pub idx : ℕ
  pub n_sent : ℕ
  pub dx_time : ℕ
  pub last_duration : ℕ

-- How a turn ends: with the test of the loop, with `break`, or with a wait that nothing ends.
pub data Turn (S : Type 0) : Type 0 where
  continues : Sender → Transport S → Turn S
  breaks : Transport S → Turn S
  waits : Turn S

unfoldable pub next_duration : Air → ℕ → ℕ
next_duration a pktlen =
    (a.preamble_duration + a.data_duration (pktlen + header_size) + subslot_guard) * 65536

-- "Can we fit this package in before the dx_time_end"
unfoldable pub fits : ℕ → ℕ → ℕ → Bool
fits dx_time_end dx_time duration =
    let remaining =
      sub64 (sub64 dx_time_end (dtu40 (dx_time + duration))) (period_end_guard * 65536) in
    (dx_time_end == 0) || not (ltb 0x7fffffffff remaining)

-- "Check if we've slipped far behind systime and correct if so"
unfoldable pub slipped : ℕ → ℕ → ℕ → ℕ
slipped preamble systime dx_time =
    if ltb 0x7fffffffff (sub64 dx_time systime) then systime + preamble * 65536 else dx_time

-- The packet with its retries rewritten: two bytes go, and two come back if there is room.
unfoldable pub with_retries : Bool → ℕ → List ℕ → List ℕ
unfolding bytes_of
with_retries extended retries om =
    let short = take (length om - 2) om in
    if extended then short ++ bytes_of 2 (u16 retries) else short

abbrev pub let_go : Sender → Sender
let_go s = record s { holds = false; membuf_transferred = false }

abbrev pub first_sender : ℕ → Sender
first_sender dx_time = record {
  holds = false;
  membuf_transferred = false;
  idx = 0;
  n_sent = 0;
  dx_time = dx_time;
  last_duration = 0;
}

module _ {S : Type 0} where
  -- `STAILQ_REMOVE_HEAD`
  abbrev pub drop_head : Transport S → Transport S
  drop_head t = record t { tx_q = elim t.tx_q [ [] ↦ [] | p ∷ ps ↦ ps ] }

  abbrev pub set_head : List ℕ → Transport S → Transport S
  set_head om t = record t { tx_q = elim t.tx_q [ [] ↦ [] | p ∷ ps ↦ om ∷ ps ] }

  -- The acknowledgement did not come, or is another frame's: the packet is dropped after its last
  -- try, and kept for another one before.
  unfoldable pub not_acked : Attempt → List ℕ → Sender → Transport S → Turn S
  unfolding with_retries
  not_acked att om s t =
      let retries = tail_word 2 om in
      if ltb retries s.n_sent
      then continues (let_go s) (drop_head t)
      else continues (record s { n_sent = if att.extended then 0 else s.n_sent })
          (set_head (with_retries att.extended (retries - s.n_sent) om) t)

  -- "Successfully sent, dequeue and free"
  unfoldable pub sent : Sender → Transport S → Turn S
  unfolding signal_tx
  sent s t =
      let u = drop_head t in
      continues (let_go s) (record u { app = signal_tx u.extension_list u.app })

  unfoldable pub is_acked : Transport S → Bool
  is_acked t = elim t.ack_seq_num [ none ↦ false | some n ↦ n == t.frame_seq_num ]

  -- the wait for the acknowledgement, and what follows
  unfoldable pub await_ack : Attempt → List ℕ → Sender → Transport S → Turn S
  unfolding pend_ack_sem sent not_acked is_acked
  await_ack att om s t =
      if t.request_acks
      then (elim (pend_ack_sem t) [
        | none ↦ waits
        | some u ↦
            let v = release_ack_sem u in if is_acked v then sent s v else not_acked att om s v
      ])
      else sent s t

  -- the transmission has failed to start, and all that was taken is released
  unfoldable pub start_failed : Air → Attempt → Sender → Transport S → Turn S
  unfolding slipped
  start_failed a att s t =
      continues (record s { dx_time = slipped a.preamble_duration att.systime s.dx_time })
        (release_ack_sem (release_write_tx_lock (release_sem t)))

  -- from the call of `uwb_transport_start_tx` on
  unfoldable pub start : Air → Bool → Attempt → List ℕ → Sender → Transport S → Turn S
  unfolding start_packet start_failed await_ack handle_all
  start a delayed att om s t =
      let u = start_packet a.ack_duration (if delayed then s.dx_time else 0) t in
      if att.start_tx_error
      then start_failed a att s u
      else await_ack att om (record s { n_sent = s.n_sent + 1 }) (handle_all att.events u)

  -- `dpl_sem_pend(&uwb_transport->ack_sem, …)` before the start, if acknowledgements are on
  unfoldable pub take_ack_sem : Transport S → Option (Transport S)
  unfolding pend_ack_sem
  take_ack_sem t = if t.request_acks then pend_ack_sem t else some t

  unfoldable pub write_if_new : List ℕ → Sender → Transport S → Sender × Transport S
  unfolding write_packet
  write_if_new om s t =
      if s.membuf_transferred
      then (s, t)
      else let i = u16 (s.idx + 1) in
        (record s { idx = i; n_sent = 0; membuf_transferred = true }, write_packet om i t)

  -- from the wait for `write_tx_lock` on
  unfoldable pub transmit : Air → Bool → Attempt → List ℕ → Sender → Transport S → Turn S
  unfolding pend_write_tx_lock write_if_new pend_sem take_ack_sem start
  transmit a delayed att om s t = elim (pend_write_tx_lock t) [
    | none ↦ waits
    | some u ↦
        let (s', v) = write_if_new om s u in
        elim (pend_sem v) [
          | none ↦ waits
          | some w ↦ elim (take_ack_sem w) [ none ↦ waits | some x ↦ start a delayed att om s' x ]
        ]
  ]

  -- One turn of the loop; `delayed` is `arg_dx_time != 0`.
  unfoldable pub turn : Air → Bool → ℕ → Attempt → Sender → Transport S → Turn S
  unfolding next_duration fits transmit
  turn a delayed dx_time_end att s t =
      if t.has_init
      then (elim t.tx_q [
        | [] ↦ breaks t
        | om ∷ _ ↦
            let dx = dtu40 (s.dx_time + s.last_duration) in
            let d = next_duration a (length om) in
            let s' = record s {
              holds = true;
              membuf_transferred = s.holds && s.membuf_transferred;
              dx_time = dx;
              last_duration = d;
            } in
            if fits dx_time_end dx d then transmit a delayed att om s' t else breaks t
      ])
      else breaks t

  -- after the loop
  unfoldable pub finish : Transport S → Option (Transport S)
  unfolding pend_sem
  finish t = elim (pend_sem t) [ none ↦ none | some u ↦ some (release_sem u) ]

  -- `STAILQ_FIRST(…) != NULL && uwb_transport->status.has_init`
  unfoldable pub goes_on : Transport S → Bool
  goes_on t = elim t.tx_q [ [] ↦ false | p ∷ ps ↦ t.has_init ]

  -- The loop, a turn for each attempt; `none` if it has not ended when there are no more.
  unfoldable pub send_loop :
      Air → Bool → ℕ → List Attempt → Sender → Transport S → Option (Transport S)
  unfolding turn finish goes_on
  send_loop a delayed dx_time_end [] s t = none
  send_loop a delayed dx_time_end (att ∷ atts) s t = elim (turn a delayed dx_time_end att s t) [
    | waits ↦ none
    | breaks u ↦ finish u
    | continues s' u ↦ elim (goes_on u) [
      | true ↦ send_loop a delayed dx_time_end atts s' u
      | false ↦ finish u
    ]
  ]

  unfoldable pub dequeue_tx : Air → ℕ → ℕ → List Attempt → Transport S → Option (Bool × Transport S)
  unfolding send_loop
  dequeue_tx a dx_time dx_time_end atts t = elim t.tx_q [
    | [] ↦ some (false, t)
    | p ∷ ps ↦ elim (send_loop a (not (dx_time == 0)) dx_time_end atts (first_sender dx_time) t) [
      | none ↦ none
      | some u ↦ some (true, u)
    ]
  ]
