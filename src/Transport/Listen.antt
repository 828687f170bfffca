-- ===== src/Transport/Listen.antt =====
-- `uwb_transport_listen` and the semaphores of lib/uwb_transport/src/uwb_transport.c.
use uwb_core.Common.{
  ℕ, zero, suc, ◌*◌, ◌/◌, Bool, true, [], ◌∷◌, Option, none, some, if◌then◌else◌, ◌==◌,
}
use uwb_core.Mac.{dtu40, sub64}
use uwb_core.Transport.{
  Call, start_rx, set_wait4resp, set_wait4resp_delay, set_rx_timeout, set_rx_window, set_autoack,
  set_autoack_delay, set_on_error_continue, period_end_guard, Transport, ask,
}

-- the receive window, which ends early enough to get ready for the next slot
unfoldable pub rx_window : ℕ → ℕ → Call
rx_window dx_time dx_time_end =
    if dx_time == 0
    then set_rx_timeout (dx_time_end / 65536)
    else set_rx_window dx_time (dtu40 (sub64 dx_time_end (period_end_guard * 65536)))

module _ {S : Type 0} where
  -- `dpl_sem_pend`; `none` is a task that has to wait.
  unfoldable pub pend_sem : Transport S → Option (Transport S)
  pend_sem t = elim t.sem [ zero ↦ none | suc n ↦ some (record t { sem = n }) ]

  unfoldable pub pend_ack_sem : Transport S → Option (Transport S)
  pend_ack_sem t = elim t.ack_sem [ zero ↦ none | suc n ↦ some (record t { ack_sem = n }) ]

  unfoldable pub pend_write_tx_lock : Transport S → Option (Transport S)
  pend_write_tx_lock t = elim t.write_tx_lock [
    | zero ↦ none
    | suc n ↦ some (record t { write_tx_lock = n })
  ]

  -- `uwb_transport_listen` up to its wait for the end of the reception; `rx_error` is what
  -- `uwb_start_rx` reports.
  unfoldable pub listen : Bool → ℕ → ℕ → Transport S → Option (Transport S)
  unfolding pend_sem rx_window
  listen rx_error dx_time dx_time_end t = elim (pend_sem t) [
    | none ↦ none
    | some u ↦
        let v =
          ask
            (rx_window dx_time dx_time_end
              ∷ set_autoack true
              ∷ set_autoack_delay 12
              ∷ set_wait4resp true
              ∷ set_wait4resp_delay 0
              ∷ set_on_error_continue true
              ∷ start_rx
              ∷ [])
            u in
        some (if rx_error then record v { sem = suc v.sem } else v)
  ]

  -- The end of a blocking listen: `dpl_sem_pend`, then `dpl_sem_release`.
  unfoldable pub wake : Transport S → Option (Transport S)
  unfolding pend_sem
  wake t = elim (pend_sem t) [ none ↦ none | some u ↦ some (record u { sem = suc u.sem }) ]
