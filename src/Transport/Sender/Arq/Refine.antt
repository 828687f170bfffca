-- ===== src/Transport/Sender/Arq/Refine.antt =====
-- Where the radio starts each transmission and the window is open, the loop of
-- `uwb_transport_dequeue_tx` is the stop-and-wait sender.
use uwb_core.Common.{
  ℕ, zero, suc, ◌+◌, ◌-◌, ◌<◌, ◌≡◌, refl, sym, ap, ◌∙◌, Bool, true, false, not, List, [], ◌∷◌, ◌++◌,
  map, Option, none, some, if◌then◌else◌, ◌==◌, ltb, u8, u16, length, length-append, take-append,
  arith, inl, inr, Bool-cases, ℕ-cases, if-both,
}
use mathlib.Core.Path.{subst}
use uwb_core.Pan.Frame.{bytes_of}
use uwb_core.Transport.{frame_type_ack, Call, Transport}
use uwb_core.Transport.Extensions.{signal_tx}
use uwb_core.Transport.Callbacks.{
  Received, Event, rx_complete, rx_timeout, tx_begins, tx_complete, handle, handle_all,
  rx_complete_cb, ack_received, rx_timeout_cb, tx_begins_cb, tx_complete_cb,
}
use uwb_core.Transport.Listen.{pend_sem, pend_ack_sem, pend_write_tx_lock}
use uwb_core.Transport.Write.{write_packet, start_packet, tail_word}
use uwb_core.Transport.Enqueue.{with_trailer}
use uwb_core.Transport.Transfer.{tail_word-retries}
use uwb_core.Transport.Sender.{
  Air, Attempt, Sender, Turn, continues, let_go, drop_head, set_head, fits, with_retries, not_acked,
  sent, is_acked, await_ack, start, take_ack_sem, write_if_new, transmit, turn, goes_on, finish,
  send_loop, dequeue_tx,
}
use uwb_core.Transport.Sender.Arq.{
  Packet, Reply, silence, ack, Arq, is_heard, seq_of_try, missed, try_first, try_all,
}

abbrev pub encode : Packet → List ℕ
encode p = with_trailer p.dst p.tsp_code p.retries p.bytes

-- the reception of an acknowledgement with the number `n`
abbrev pub ack_frame : ℕ → Received
ack_frame n = record {
  fctrl = frame_type_ack;
  frame_len = 5;
  rxbuf = 2 ∷ 0 ∷ n ∷ [];
  autoack_triggered = false;
  cputime = 0;
  has_mbuf = true;
  copied = true;
}

abbrev pub reply_event : Reply → Event
reply_event silence = rx_timeout
reply_event (ack n) = rx_complete (ack_frame n)

-- A transmission that starts, is made, and gets the reply, at a time of the device.
abbrev pub attempt : ℕ → Reply → Attempt
attempt systime r = record {
  start_tx_error = false;
  events = tx_begins ∷ tx_complete ∷ reply_event r ∷ [];
  systime = systime;
  extended = true;
}

-- what the stop-and-wait sender forgets of the instance
pub record Regs : Type 0 where
  pub ack_seq_num : Option ℕ
  pub awaiting_ack_tx : Bool
  pub tx_buffer_len : ℕ
  pub tx_buffer_offset : ℕ
  pub calls : List Call

-- and of the local variables
pub record Locals : Type 0 where
  pub idx : ℕ
  pub n_sent : ℕ
  pub dx_time : ℕ
  pub last_duration : ℕ

abbrev pub sender_of : Bool → Locals → Sender
sender_of held l = record {
  holds = held;
  membuf_transferred = held;
  idx = l.idx;
  n_sent = if held then 0 else l.n_sent;
  dx_time = l.dx_time;
  last_duration = l.last_duration;
}

module _ {S : Type 0} (b : Transport S) where
  -- an instance at rest, with acknowledgements, in the state of the stop-and-wait sender
  abbrev pub instance_of : Arq S → Regs → Transport S
  instance_of a g = record b {
    has_init = true;
    request_acks = true;
    sem = 1;
    write_tx_lock = 1;
    ack_sem = 1;
    tx_q = map encode a.packets;
    frame_seq_num = a.seq;
    app = a.app;
    ack_seq_num = g.ack_seq_num;
    awaiting_ack_tx = g.awaiting_ack_tx;
    tx_buffer_len = g.tx_buffer_len;
    tx_buffer_offset = g.tx_buffer_offset;
    calls = g.calls;
  }

  abbrev pub signal : S → S
  signal s = signal_tx b.extension_list s

  abbrev busy : Packet → List Packet → ℕ → Bool → S → Arq S
  busy p ps seq held app = record { packets = p ∷ ps; seq = seq; held = held; app = app }

  -- The turn goes on, in the state `a` of the stop-and-wait sender.
  data Simulates (a : Arq S) (turn : Turn S) : Type 0 where
    simulates :
        (l : Locals) (g : Regs)
        → turn ≡ continues (sender_of a.held l) (instance_of a g)
        → Simulates a turn

  abbrev tried : ℕ → ℕ → ℕ → Sender
  tried idx dx_time last_duration = record {
    holds = true;
    membuf_transferred = true;
    idx = idx;
    n_sent = 1;
    dx_time = dx_time;
    last_duration = last_duration;
  }

  -- one retry less in the packet's last word
  with_retries-encode :
      (p : Packet) (k : ℕ)
      → k < 65536
      → with_retries true k (encode p) ≡ encode (record p { retries = k })
  unfolding with_retries with_trailer bytes_of
  with_retries-encode p k lt =
      let front = p.bytes ++ bytes_of 2 p.dst ++ bytes_of 2 p.tsp_code in
      let size = length-append front (bytes_of 2 p.retries) in
      let word : u16 k ≡ k = omega arith in
      rw
        (
          take-append (length (front ++ bytes_of 2 p.retries) - 2) front (bytes_of 2 p.retries)
              (omega (arith, size)),
          word,
        )
        refl

  -- a packet with a retry left is kept
  kept :
      (p : Packet) (ps : List Packet) (n : ℕ) (app : S) (idx dx_time last_duration : ℕ) (g : Regs)
      (k word : ℕ) (om : List ℕ)
      → word ≡ suc k
      → om ≡ encode (record p { retries = k })
      → let t = instance_of (busy p ps n true app) g in
        Simulates (missed (suc k) app p ps n) (
          if ltb word 1
          then continues (let_go (tried idx dx_time last_duration)) (drop_head t)
          else continues (record (tried idx dx_time last_duration) { n_sent = 0 }) (set_head om t))
  kept p ps n app idx dx_time last_duration g k word om e f =
      let more : ltb (suc k) 1 ≡ false = ground arith in
      rw (e, more, f)
        (simulates
          (record { idx = idx; n_sent = 0; dx_time = dx_time; last_duration = last_duration }) _
          refl)

  not_acked-missed :
      (systime : ℕ) (r : Reply) (p : Packet) (ps : List Packet) (n : ℕ) (app : S)
      (idx dx_time last_duration : ℕ) (g : Regs)
      → p.retries < 65536
      → Simulates (missed p.retries app p ps n) (
          not_acked
            (attempt systime r)
            (encode p)
            (tried idx dx_time last_duration)
            (instance_of (busy p ps n true app) g))
  unfolding not_acked
  not_acked-missed systime r p ps n app idx dx_time last_duration g lt =
      let word = tail_word-retries p.dst p.tsp_code p.retries p.bytes lt in
      elim (ℕ-cases p.retries) [
        | inl e ↦
            rw (word, e)
              (simulates
                (record { idx = idx; n_sent = 1; dx_time = dx_time; last_duration = last_duration })
                _ refl)
        | inr (k, e) ↦
            let less : tail_word 2 (encode p) - 1 ≡ k = omega (arith, word) in
            subst
              (λ m. Simulates (missed m app p ps n) (
                not_acked (attempt systime r) (encode p) (tried idx dx_time last_duration)
                  (instance_of (busy p ps n true app) g)))
              (sym e)
              (kept p ps n app idx dx_time last_duration g k (tail_word 2 (encode p)) _ (word ∙ e) (
                ap (λ m. with_retries true m (encode p)) less
                ∙ with_retries-encode p k (omega arith)))
      ]

  turn-silence :
      (air : Air) (delayed : Bool) (systime : ℕ) (p : Packet) (ps : List Packet) (seq : ℕ)
      (held : Bool) (app : S) (l : Locals) (g : Regs)
      → p.retries < 65536
      → Simulates (try_first signal silence (busy p ps seq held app)) (
          turn air delayed 0
            (attempt systime silence)
            (sender_of held l)
            (instance_of (busy p ps seq held app) g))
  unfolding turn fits transmit write_if_new take_ack_sem start await_ack pend_sem pend_ack_sem
      pend_write_tx_lock try_first handle_all handle tx_begins_cb tx_complete_cb rx_timeout_cb
      is_acked write_packet start_packet
  turn-silence air delayed systime p ps seq false app l g lt =
      not_acked-missed systime silence p ps (u8 (seq + 1)) app _ _ _ _ lt
  turn-silence air delayed systime p ps seq true app l g lt =
      not_acked-missed systime silence p ps seq app _ _ _ _ lt

  turn-ack :
      (air : Air) (delayed : Bool) (systime k : ℕ) (p : Packet) (ps : List Packet) (seq : ℕ)
      (held : Bool) (app : S) (l : Locals) (g : Regs)
      → p.retries < 65536
      → Simulates (try_first signal (ack k) (busy p ps seq held app)) (
          turn air delayed 0
            (attempt systime (ack k))
            (sender_of held l)
            (instance_of (busy p ps seq held app) g))
  unfolding turn fits transmit write_if_new take_ack_sem start await_ack pend_sem pend_ack_sem
      pend_write_tx_lock try_first handle_all handle tx_begins_cb tx_complete_cb rx_complete_cb
      ack_received is_acked sent write_packet start_packet
  turn-ack air delayed systime k p ps seq false app l g lt = elim (Bool-cases (k == u8 (seq + 1))) [
    | inl e ↦
        rw e (simulates (record { idx = _; n_sent = 1; dx_time = _; last_duration = _ }) _ refl)
    | inr e ↦ rw e (not_acked-missed systime (ack k) p ps (u8 (seq + 1)) app _ _ _ _ lt)
  ]
  turn-ack air delayed systime k p ps seq true app l g lt = elim (Bool-cases (k == seq)) [
    | inl e ↦
        rw e (simulates (record { idx = _; n_sent = 1; dx_time = _; last_duration = _ }) _ refl)
    | inr e ↦ rw e (not_acked-missed systime (ack k) p ps seq app _ _ _ _ lt)
  ]

-- The retries fit their word.
abbrev pub AllFit : List Packet → Type 0
AllFit [] = Unit
AllFit (p ∷ ps) = (p.retries < 65536) × AllFit ps

module _ {S : Type 0} where
  missed-AllFit :
      (k n : ℕ) (app : S) (p : Packet) (ps : List Packet)
      → k < 65536
      → AllFit ps
      → AllFit (missed k app p ps n).packets
  missed-AllFit zero n app p ps lt fit = fit
  missed-AllFit (suc k) n app p ps lt fit = (omega arith, fit)

  pub try_first-AllFit :
      (f : S → S) (r : Reply) (ps : List Packet) (seq : ℕ) (held : Bool) (app : S)
      → AllFit ps
      → AllFit (try_first f r (record { packets = ps; seq = seq; held = held; app = app })).packets
  unfolding try_first
  try_first-AllFit f r [] seq held app fit = fit
  try_first-AllFit f r (p ∷ ps) seq held app (lt, fit) =
      if-both (λ (x : Arq S). AllFit x.packets) (is_heard r (seq_of_try held seq)) _ _ fit
        (missed-AllFit p.retries (seq_of_try held seq) app p ps lt fit)

  -- nothing is left to try
  pub try_all_done :
      (f : S → S) (rs : List Reply) (a : Arq S) → a.packets ≡ [] → try_all f rs a ≡ some a
  unfolding try_all
  try_all_done f [] a e = rw e refl
  try_all_done f (r ∷ rs) a e = rw e refl

module _ {S : Type 0} (b : Transport S) where
  -- The code has not ended either, or it has with what the stop-and-wait sender leaves.
  pub data Agrees (spec : Option (Arq S)) (code : Option (Transport S)) : Type 0 where
    unfinished : spec ≡ none → code ≡ none → Agrees spec code
    finished :
        (a : Arq S) (g : Regs) → spec ≡ some a → code ≡ some (instance_of b a g) → Agrees spec code

  turn-try_first :
      (air : Air) (delayed : Bool) (systime : ℕ) (r : Reply) (p : Packet) (ps : List Packet)
      (seq : ℕ) (held : Bool) (app : S) (l : Locals) (g : Regs)
      → p.retries < 65536
      → Simulates b (try_first (signal b) r (busy b p ps seq held app)) (
          turn air delayed 0
            (attempt systime r)
            (sender_of held l)
            (instance_of b (busy b p ps seq held app) g))
  turn-try_first air delayed systime silence p ps seq held app l g lt =
      turn-silence b air delayed systime p ps seq held app l g lt
  turn-try_first air delayed systime (ack k) p ps seq held app l g lt =
      turn-ack b air delayed systime k p ps seq held app l g lt

  -- the loop behind a turn that the stop-and-wait sender has simulated
  after_turn :
      (air : Air) (delayed : Bool) (systime : ℕ) (rs : List Reply)
      → ((p : Packet) (ps : List Packet) (seq : ℕ) (held : Bool) (app : S) (l : Locals) (g : Regs)
          → AllFit (p ∷ ps)
          → Agrees (try_all (signal b) rs (busy b p ps seq held app)) (
              send_loop air delayed 0
                (map (attempt systime) rs)
                (sender_of held l)
                (instance_of b (busy b p ps seq held app) g)))
      → (ps : List Packet) (seq : ℕ) (held : Bool) (app : S) (l : Locals) (g : Regs) → AllFit ps
      → let a : Arq S = record { packets = ps; seq = seq; held = held; app = app } in
        let u = instance_of b a g in
        Agrees (try_all (signal b) rs a) (elim (goes_on u) [
          | true ↦ send_loop air delayed 0 (map (attempt systime) rs) (sender_of held l) u
          | false ↦ finish u
        ])
  unfolding goes_on finish pend_sem
  after_turn air delayed systime rs loop [] seq held app l g fit =
      finished _ g (try_all_done (signal b) rs _ refl) refl
  after_turn air delayed systime rs loop (p ∷ ps) seq held app l g fit =
      loop p ps seq held app l g fit

  send_loop-try_all :
      (air : Air) (delayed : Bool) (systime : ℕ) (rs : List Reply) (p : Packet) (ps : List Packet)
      (seq : ℕ) (held : Bool) (app : S) (l : Locals) (g : Regs)
      → AllFit (p ∷ ps)
      → Agrees (try_all (signal b) rs (busy b p ps seq held app)) (
          send_loop air delayed 0
            (map (attempt systime) rs)
            (sender_of held l)
            (instance_of b (busy b p ps seq held app) g))
  unfolding send_loop try_all
  send_loop-try_all air delayed systime [] p ps seq held app l g fit = unfinished refl refl
  send_loop-try_all air delayed systime (r ∷ rs) p ps seq held app l g fit =
      elim (turn-try_first air delayed systime r p ps seq held app l g fit.0) [
        | simulates l' g' e ↦
            let a = try_first (signal b) r (busy b p ps seq held app) in
            rw e (
              after_turn air delayed systime rs
                (λ p ps seq held app l g.
                  send_loop-try_all air delayed systime rs p ps seq held app l g)
                a.packets a.seq a.held a.app l' g'
                (try_first-AllFit (signal b) r (p ∷ ps) seq held app fit))
      ]

  -- what `uwb_transport_dequeue_tx` leaves
  abbrev pub left : Option (Bool × Transport S) → Option (Transport S)
  left none = none
  left (some (_, t)) = some t

  -- With acknowledgements on, no end of the window, and transmissions that start and are followed by
  -- their interrupts, the loop is the stop-and-wait sender: it takes as many tries, a packet leaves
  -- the queue when it is acknowledged under its own number or after its last retry, the callbacks of
  -- the extensions are called for the acknowledged packets only, and all semaphores are free again.
  pub dequeue_tx-try_all :
      (air : Air) (dx_time systime : ℕ) (rs : List Reply) (ps : List Packet) (seq : ℕ) (app : S)
      (g : Regs)
      → AllFit ps
      → let a : Arq S = record { packets = ps; seq = seq; held = false; app = app } in
        Agrees
          (try_all (signal b) rs a)
          (left (dequeue_tx air dx_time 0 (map (attempt systime) rs) (instance_of b a g)))
  unfolding dequeue_tx
  dequeue_tx-try_all air dx_time systime rs [] seq app g fit =
      finished _ g (try_all_done (signal b) rs _ refl) refl
  dequeue_tx-try_all air dx_time systime rs (p ∷ ps) seq app g fit =
      elim (send_loop-try_all air (not (dx_time == 0)) systime rs p ps seq false app
        (record { idx = 0; n_sent = 0; dx_time = dx_time; last_duration = 0 }) g fit) [
          | unfinished e f ↦ unfinished e (rw (f, left) refl)
          | finished a' g' e f ↦ finished a' g' e (rw (f, left) refl)
        ]
