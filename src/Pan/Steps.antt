-- ===== src/Pan/Steps.antt =====
-- The interleaving of tasks and driver callbacks around the semaphore of lib/uwb_pan.
pub mod Exclusive
use uwb_core.Common.{
  ℕ, suc, zero, ◌≤◌, ◌≡◌, ◌+◌, ◌-◌, Bool, true, false, Option, none, some, inl, inr, Bool-cases,
  Option-cases, arith, if◌then◌else◌, ◌==◌,
}
use uwb_core.PanUtils.{Version}
use uwb_core.Pan.Instance.{Dev, Pan, frame}
use uwb_core.Pan.Receive.{
  finish, handle_pan_request, relay, accept, on_code, rx_complete_cb, tx_complete_cb, reset_cb,
  rx_timeout_cb, lease_expiry_cb,
}
use uwb_core.Pan.Transmit.{pend, release, listen_start, blink_start, pan_reset}

-- An instance; how many tasks wait for the end of an exchange; how many are between their pend and
-- their release; and how often a callback released the semaphore in such a gap.
pub record System (S : Type 0) : Type 0 where
  pub inst : Pan S
  pub waiting : ℕ
  pub releasing : ℕ
  pub between : ℕ

module _ {S : Type 0} where
  -- after a callback that left `p`
  abbrev pub called : System S → Pan S → System S
  called s p = record s {
    inst = p;
    between = s.between + (if s.releasing == 0 then 0 else p.sem - s.inst.sem);
  }

  -- after a start that left `p`: a failed one is followed by a release, a good one by the wait
  abbrev pub started : System S → Bool → Bool → Pan S → System S
  started s failed blocking p = record s {
    inst = p;
    releasing = if failed then suc s.releasing else s.releasing;
    waiting = if failed then s.waiting else if blocking then suc s.waiting else s.waiting;
  }

  -- One operation, with what the driver reports in it. The pends and releases of a task are steps of
  -- their own: callbacks and other tasks run between them. A listen whose start failed may wait after
  -- its release.
  pub data Step (s : System S) : System S → Type 0 where
    rx_done :
        (epoch : Option ℕ) (tx_error : Bool) (d : Dev)
        → Step s (called s (rx_complete_cb epoch tx_error (record s.inst { dev = d })).1)
    tx_done : (d : Dev) → Step s (called s (tx_complete_cb (record s.inst { dev = d })).1)
    was_reset : Step s (called s (reset_cb s.inst).1)
    timed_out : Step s (called s (rx_timeout_cb s.inst).1)
    lease_ended : Step s (called s (lease_expiry_cb s.inst))
    reset_sent :
        (tx_error : Bool) (delay : ℕ) → Step s (record s { inst = pan_reset tx_error delay s.inst })
    listens :
        (rx_error blocking : Bool) (p : Pan S)
        → listen_start s.inst ≡ some p
        → Step s (started s rx_error blocking p)
    blinks :
        (version : Option Version) (rpt_max role delay : ℕ) (tx_error blocking : Bool) (p : Pan S)
        → blink_start version rpt_max tx_error role delay s.inst ≡ some p
        → Step s (started s tx_error blocking p)
    woken :
        (w : ℕ) (p : Pan S)
        → s.waiting ≡ suc w
        → pend s.inst ≡ some p
        → Step s (record s { inst = p; waiting = w; releasing = suc s.releasing })
    releases :
        (waits : Bool) (r : ℕ)
        → s.releasing ≡ suc r
        → Step s (record s {
          inst = release s.inst;
          releasing = r;
          waiting = if waits then suc s.waiting else s.waiting;
        })

  pub data Steps : System S → System S → Type 0 where
    here : {s : System S} → Steps s s
    next : {s t u : System S} → Steps s t → Step t u → Steps s u
