-- ===== src/Pan/Steps/Exclusive.antt =====
-- What the semaphore counts, with the tasks that are about to release it.
use uwb_core.Common.{
  ℕ, suc, ◌+◌, ◌≤◌, ◌≡◌, ◌==◌, Bool, true, false, Bool-cases, Option, none, some, inl, inr,
  Option-cases, arith, if-both, ℕ-cases, refl, sym, ap, ◌∙◌,
}
use mathlib.Core.Option.{some-injective}
use uwb_core.Pan.Instance.{Pan}
use uwb_core.Pan.Receive.{
  finish, answer_by, handle_pan_request, relay, accept, rx_complete_cb, tx_complete_cb, reset_cb,
  rx_timeout_cb, lease_expiry_cb,
}
use uwb_core.Pan.Receive.Outcome.{
  CodeOutcome, answers, accepts, clears, ignores, RxOutcome, gives_up, passes_on, takes,
  rx_complete_cb-Outcome,
}
use uwb_core.PanUtils.{Version}
use uwb_core.Pan.Transmit.{pend, listen_start, blink_start, pan_reset}
use uwb_core.Pan.Steps.{
  System, called, started, Step, releases, rx_done, tx_done, was_reset, timed_out, lease_ended,
  reset_sent, listens, blinks, woken, Steps, here, next,
}

module _ {S : Type 0} (most : ℕ) where
  -- The semaphore counts at most one more than `most`.
  abbrev Single : Pan S → Type 0
  Single p = p.sem ≤ suc most

  abbrev Done : Bool × Pan S → Type 0
  Done r = Single r.1

  released : (p : Pan S) → Single (record p { sem = 1 })
  released p = omega arith

  handle_pan_request-Single : (e : Bool) (p : Pan S) → Single p → Single (handle_pan_request e p)
  unfolding handle_pan_request answer_by
  handle_pan_request-Single e p h = elim (Option-cases p.request_cb) [
    | inl unset ↦ rw (unset, handle_pan_request) h
    | inr (cb, set) ↦ rw (set, handle_pan_request, answer_by) (if-both Single _ _ _ h h)
  ]

  relay-Single : (e : Bool) (p : Pan S) → Single p → Single (relay e p)
  unfolding relay
  relay-Single e p h = if-both Single _ _ _ h h

  accept-Single : (epoch : Option ℕ) (p : Pan S) → Single p → Single (accept epoch p)
  unfolding accept
  accept-Single epoch p h = h

  finish-Single : (p : Pan S) → Single p → Single (finish p).1
  unfolding finish
  finish-Single p h = if-both Single _ _ _ (released p) (if-both Single _ _ _ h h)

  rx_complete_cb-Single :
      (epoch : Option ℕ) (e : Bool) (p : Pan S) → Single p → Single (rx_complete_cb epoch e p).1
  rx_complete_cb-Single epoch e p h = from (rx_complete_cb-Outcome epoch e p)
    where
      coded : (q : Pan S) (r : Bool × Pan S) → Single q → CodeOutcome epoch e q r → Single r.1
      coded q _ s (answers _ _) = finish-Single _ (handle_pan_request-Single e _ s)
      coded q _ s (accepts _ _) = finish-Single _ (accept-Single epoch q s)
      coded q _ s (clears _ _) = s
      coded q _ s (ignores _) = s

      from : {r : Bool × Pan S} → RxOutcome epoch e p r → Single r.1
      from (gives_up _) = released p
      from passes_on = h
      from (takes r _ _ _ c) = coded _ r (relay-Single e _ h) c

  tx_complete_cb-Single : (p : Pan S) → Single p → Single (tx_complete_cb p).1
  unfolding tx_complete_cb
  tx_complete_cb-Single p h = if-both Done _ _ _ h h

  reset_cb-Single : (p : Pan S) → Single p → Single (reset_cb p).1
  unfolding reset_cb
  reset_cb-Single p h = if-both Done _ _ _ (released p) h

  rx_timeout_cb-Single : (p : Pan S) → Single p → Single (rx_timeout_cb p).1
  unfolding rx_timeout_cb
  rx_timeout_cb-Single p h = if-both Done _ _ _ (released p) h

  lease_expiry_cb-Single : (p : Pan S) → Single p → Single (lease_expiry_cb p)
  unfolding lease_expiry_cb
  lease_expiry_cb-Single p h = if-both Single _ _ _ h h

module _ {S : Type 0} where
  pend-none : (p : Pan S) → p.sem ≡ 0 → pend p ≡ none
  unfolding pend
  pend-none p z = rw z refl

  pend-some : (p : Pan S) (n : ℕ) → p.sem ≡ suc n → pend p ≡ some (record p { sem = n })
  unfolding pend
  pend-some p n s = rw s refl

  -- A task that got the semaphore leaves one less of it.
  pub pend-sem : (p q : Pan S) → pend p ≡ some q → p.sem ≡ suc q.sem
  unfolding pend
  pend-sem p q e = elim (ℕ-cases p.sem) [
    | inl z ↦ absurd (cc (sym (pend-none p z) ∙ e))
    | inr (n, s) ↦ s ∙ ap (λ r. suc r.sem) (some-injective _ _ (sym (pend-some p n s) ∙ e))
  ]

  -- A start that was granted has taken one.
  listen_start-sem : (p q : Pan S) → listen_start p ≡ some q → p.sem ≡ suc q.sem
  unfolding listen_start
  listen_start-sem p q e = elim (Option-cases (pend p)) [
    | inl waits ↦ absurd (cc (rw (listen_start, waits) at e))
    | inr (u, got) ↦
        pend-sem p u got
        ∙ ap (λ (r : Pan S). suc r.sem) (some-injective _ _ (rw (listen_start, got) at e))
  ]

  blink_start-sem :
      (version : Option Version) (rpt_max role delay : ℕ) (tx_error : Bool) (p q : Pan S)
      → blink_start version rpt_max tx_error role delay p ≡ some q
      → p.sem ≡ suc q.sem
  unfolding blink_start
  blink_start-sem version rpt_max role delay tx_error p q e = elim (Option-cases (pend p)) [
    | inl waits ↦ absurd (cc (rw (blink_start, waits) at e))
    | inr (u, got) ↦
        pend-sem p u got
        ∙ ap (λ (r : Pan S). suc r.sem) (some-injective _ _ (rw (blink_start, got) at e))
  ]

  -- What is free and what is about to be freed, against the releases in gaps.
  abbrev pub Counted : System S → Type 0
  Counted s = s.inst.sem + s.releasing ≤ suc s.between

  called-Counted :
      (s : System S) (p : Pan S)
      → (s.inst.sem ≤ suc s.between → p.sem ≤ suc s.between)
      → Counted s
      → Counted (called s p)
  called-Counted s p keeps h = elim (Bool-cases (s.releasing == 0)) [
    | inl idle ↦
        let none_there : s.releasing ≡ 0 = ground arith in
        rw idle (omega (arith, keeps (omega arith), none_there))
    | inr gap ↦ rw gap (omega arith)
  ]

  started-Counted :
      (s : System S) (failed blocking : Bool) (p : Pan S)
      → s.inst.sem ≡ suc p.sem
      → Counted s
      → Counted (started s failed blocking p)
  started-Counted s true blocking p e h = omega arith
  started-Counted s false blocking p e h = omega arith

  Step-Counted : (s t : System S) → Step s t → Counted s → Counted t
  unfolding pan_reset
  Step-Counted s _ (rx_done epoch e d) h =
      called-Counted s (rx_complete_cb epoch e (record s.inst { dev = d })).1
        (rx_complete_cb-Single s.between epoch e (record s.inst { dev = d })) h
  Step-Counted s _ (tx_done d) h =
      called-Counted s (tx_complete_cb (record s.inst { dev = d })).1
        (tx_complete_cb-Single s.between (record s.inst { dev = d })) h
  Step-Counted s _ was_reset h =
      called-Counted s (reset_cb s.inst).1 (reset_cb-Single s.between s.inst) h
  Step-Counted s _ timed_out h =
      called-Counted s (rx_timeout_cb s.inst).1 (rx_timeout_cb-Single s.between s.inst) h
  Step-Counted s _ lease_ended h =
      called-Counted s (lease_expiry_cb s.inst) (lease_expiry_cb-Single s.between s.inst) h
  Step-Counted s _ (reset_sent e delay) h = h
  Step-Counted s _ (listens e blocking p ok) h =
      started-Counted s e blocking p (listen_start-sem s.inst p ok) h
  Step-Counted s _ (blinks version rpt_max role delay e blocking p ok) h =
      started-Counted s e blocking p (blink_start-sem version rpt_max role delay e s.inst p ok) h
  Step-Counted s _ (woken w p waits ok) h = omega (arith, pend-sem s.inst p ok)
  Step-Counted s _ (releases waits r some_there) h = omega arith

  -- However tasks and callbacks interleave, also where callbacks run between a task's pend and its
  -- release, the semaphore and the tasks that are about to release it count together at most one more
  -- than the releases by callbacks in such gaps, if they did at first.
  pub Steps-sem :
      (s t : System S)
      → Steps s t
      → s.inst.sem + s.releasing ≤ suc s.between
      → t.inst.sem + t.releasing ≤ suc t.between
  Steps-sem s _ here h = h
  Steps-sem s t (next {t = u} before st) h = Step-Counted u t st (Steps-sem s u before h)
