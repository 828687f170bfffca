-- ===== src/Transport/Sender/Arq.antt =====
-- A stop-and-wait sender: what `uwb_transport_dequeue_tx` promises, without its semaphores, its buffer
-- and the clock.
pub mod Refine
pub mod Ends
use uwb_core.Common.{
  ℕ, zero, suc, ◌+◌, Bool, true, false, List, [], ◌∷◌, Option, none, some, if◌then◌else◌, ◌==◌, u8,
}

-- A packet of the queue: its payload and what `uwb_transport_enqueue_tx` puts behind it.
pub record Packet : Type 0 where
  pub bytes : List ℕ
  pub dst : ℕ
  pub tsp_code : ℕ
  pub retries : ℕ

-- What comes back for a transmission: nothing in time, or an acknowledgement with a number.
pub data Reply : Type 0 where
  silence : Reply
  ack : ℕ → Reply

-- `held` is whether the first packet has been sent before, under the number `seq`.
pub record Arq (S : Type 0) : Type 0 where
  pub packets : List Packet
  pub seq : ℕ
  pub held : Bool
  pub app : S

abbrev pub is_heard : Reply → ℕ → Bool
is_heard silence n = false
is_heard (ack k) n = k == n

-- A number for each packet, and not for each try.
abbrev pub seq_of_try : Bool → ℕ → ℕ
seq_of_try held seq = if held then seq else u8 (seq + 1)

module _ {S : Type 0} where
  -- A try that is not acknowledged: the packet goes if it has no more retries.
  abbrev pub missed : ℕ → S → Packet → List Packet → ℕ → Arq S
  missed zero app p ps n = record { packets = ps; seq = n; held = false; app = app }
  missed (suc k) app p ps n = record {
    packets = record p { retries = k } ∷ ps;
    seq = n;
    held = true;
    app = app;
  }

  -- One try of the first packet.
  unfoldable pub try_first : (S → S) → Reply → Arq S → Arq S
  try_first signal r a = elim a.packets [
    | [] ↦ a
    | p ∷ ps ↦
        let n = seq_of_try a.held a.seq in
        if is_heard r n
        then record { packets = ps; seq = n; held = false; app = signal a.app }
        else missed p.retries a.app p ps n
  ]

  -- Tries until all packets are gone; `none` if the replies do not last.
  unfoldable pub try_all : (S → S) → List Reply → Arq S → Option (Arq S)
  unfolding try_first
  try_all signal [] a = elim a.packets [ [] ↦ some a | p ∷ ps ↦ none ]
  try_all signal (r ∷ rs) a = elim a.packets [
    | [] ↦ some a
    | p ∷ ps ↦ try_all signal rs (try_first signal r a)
  ]
