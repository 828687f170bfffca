-- ===== src/Ccp/Receive/Relay.antt =====
-- Packets that a relay repeats: what a listener makes of them.
use uwb_core.Common.{
  ℕ, ◌+◌, ◌-◌, ◌*◌, ◌%◌, ◌≤◌, ◌<◌, ◌≡◌, ◌≢◌, ◌⊎◌, inl, inr, refl, sym, ap, ◌∙◌, none, if◌then◌else◌,
  ◌==◌, ne→==, arith,
}
use mathlib.Core.Path.{subst}
use uwb_core.Mac.{dtu40, sub64}
use uwb_core.Ccp.{Blink, CcpFrame, Ccp, Clock, adjust_for_epoch_to_rm}
use uwb_core.Ccp.Receive.{
  master_interval, advance, count_valid, set_epochs, kept_frame, compensate_tof, compensate_relay,
  synchronise, relay_start, relay_delay, relay_blink,
}

module _ {S : Type 0} (clock : Clock) (b : Blink) (c : Ccp S) where
  abbrev pub frame_of : CcpFrame
  frame_of = (synchronise clock b c).0

  abbrev pub state_of : Ccp S
  state_of = (synchronise clock b c).1

  -- the time from the epoch to the reception, in the units of the clock
  abbrev lead : ℕ
  lead = b.epoch_to_rm_us * 65536

  -- the state before the compensations
  abbrev uncompensated : Ccp S
  uncompensated = set_epochs b (count_valid b (advance clock b c))

  synchronise-plain :
      c.tof_comp_cb ≡ none
      → synchronise clock b c ≡ compensate_relay (kept_frame b c, uncompensated)
  unfolding synchronise count_valid set_epochs adjust_for_epoch_to_rm compensate_tof advance
  synchronise-plain plain =
      let same : compensate_tof (kept_frame b c, uncompensated) ≡ (kept_frame b c, uncompensated) =
        rw plain refl in
      ap compensate_relay same

  -- What is known of a frame that comes from the master itself.
  abbrev pub Direct : CcpFrame × Ccp S → Type 0
  Direct (f, d) =
      (f ≡ kept_frame b c)
      × (d.local_epoch ≡ sub64 c.dev.rxtimestamp lead)
      × (d.master_epoch ≡ sub64 b.transmission_timestamp lead)
      × (d.skew ≡ c.skew)

  direct : b.rpt_count ≡ 0 → c.tof_comp_cb ≡ none → Direct (synchronise clock b c)
  unfolding count_valid set_epochs adjust_for_epoch_to_rm compensate_relay advance
  direct first plain =
      subst Direct (sym (synchronise-plain plain)) (rw first (refl, refl, refl, refl))

  -- the delay that a repeated frame tells of
  abbrev pub repeat_dly : ℕ
  repeat_dly = master_interval b.transmission_interval - b.transmission_interval

  -- What is known of a frame that a relay repeats.
  abbrev pub Repeated : CcpFrame × Ccp S → Type 0
  Repeated (f, d) =
      (f.blink ≡ b)
      × (f.reception_timestamp ≡ d.local_epoch)
      × (d.local_epoch ≡ dtu40 (sub64 (sub64 c.dev.rxtimestamp lead) (c.skew repeat_dly)))
      × (d.master_epoch ≡ sub64 (sub64 b.transmission_timestamp lead) repeat_dly)
      × (d.skew ≡ c.skew)

  repeated : b.rpt_count ≢ 0 → c.tof_comp_cb ≡ none → Repeated (synchronise clock b c)
  unfolding count_valid set_epochs adjust_for_epoch_to_rm compensate_relay advance
  repeated again plain =
      subst Repeated (sym (synchronise-plain plain))
        (rw (ne→== b.rpt_count 0 again) (refl, refl, refl, refl, refl))

-- A frame that tells of a delay gives it back.
interval_back :
    (m x interval : ℕ)
    → interval + x ≡ m * 4294967296
    → 0 < x
    → x ≤ 4294967296
    → master_interval interval - interval ≡ x
unfolding master_interval
interval_back m x interval e pos le = omega arith

interval_less :
    (m d x interval : ℕ)
    → interval + d ≡ m * 4294967296
    → 0 < m
    → m < 256
    → d + x ≤ 4294967296
    → dtu40 (sub64 interval x) + (d + x) ≡ m * 4294967296
interval_less m d x interval e pos lt le = omega arith

master_same :
    (ts x d lead : ℕ)
    → d + x ≤ 4294967296
    → sub64 (sub64 ((ts + x) % 18446744073709551616) lead) (d + x) ≡ sub64 (sub64 ts lead) d
master_same ts x d lead le = omega arith

local_back :
    (rx lead y : ℕ)
    → y ≤ 4294967296
    → dtu40 (sub64 rx (dtu40 (sub64 (sub64 rx lead) y))) ≡ dtu40 (lead + y)
local_back rx lead y le = omega arith

direct_back :
    (rx lead x : ℕ) → x ≤ 4294967296 → dtu40 (sub64 (rx + x) (sub64 rx lead)) ≡ dtu40 (lead + x)
direct_back rx lead x le = omega arith

delay_back : (start p : ℕ) → p ≤ start → start - p ≤ 4294967296 → sub64 start p ≡ start - p
delay_back start p le small = omega arith

sub64_zero : (ts lead d : ℕ) → d ≡ 0 → sub64 (sub64 ts lead) d ≡ sub64 ts lead
sub64_zero ts lead d e = omega arith

direct_end :
    (rx lead x d start epoch early : ℕ)
    → start ≡ rx + x
    → epoch ≡ sub64 rx lead
    → d ≡ 0
    → early ≡ 0
    → x ≤ 4294967296
    → dtu40 (lead + (d + x)) ≡ dtu40 (sub64 start epoch + early)
direct_end rx lead x d start epoch early at e no_delay exact le = omega arith

repeated_end :
    (lead x d start epoch early : ℕ)
    → start ≡ epoch + x
    → early ≡ lead + d
    → x ≤ 4294967296
    → dtu40 (lead + (d + x)) ≡ dtu40 (sub64 start epoch + early)
repeated_end lead x d start epoch early at e le = omega arith

-- A relay `c` that receives the frame `b`, and a listener `l` that receives what the relay sends.
module _ {S T : Type 0} (clock clock' : Clock) (b : Blink) (c : Ccp S) (l : Ccp T) where
  abbrev pub heard : CcpFrame
  heard = frame_of clock b c

  abbrev pub relay_state : Ccp S
  relay_state = state_of clock b c

  -- when the relay's frame leaves its antenna, in the relay's time
  abbrev pub sent_at : ℕ
  sent_at = relay_start heard relay_state + relay_state.dev.tx_antenna_delay

  abbrev pub sent_blink : Blink
  sent_blink = relay_blink heard relay_state

  abbrev pub listener_state : Ccp T
  listener_state = state_of clock' sent_blink l

  -- Neither node has a clock filter or a compensation of the time of flight. The frame tells of a delay
  -- `d`, from `m` intervals of 2^32 units, and none if it comes from the master itself; the clock of
  -- the relay does not wrap round before its frame is sent, and all delays together are no longer than
  -- an interval.
  pub record Cascade (m d : ℕ) : Type 0 where
    pub relay_plain : c.tof_comp_cb ≡ none
    pub listener_plain : l.tof_comp_cb ≡ none
    pub relay_skew : (v : ℕ) → c.skew v ≡ v
    pub listener_skew : (v : ℕ) → l.skew v ≡ v
    pub interval : b.transmission_interval + d ≡ m * 4294967296
    pub some_interval : 0 < m
    pub interval_fits : m < 256
    pub told : (b.rpt_count ≡ 0) ⊎ ((b.rpt_count ≢ 0) × (0 < d))
    pub told_none : b.rpt_count ≡ 0 → d ≡ 0
    pub hops : b.rpt_count < 255
    pub later : heard.reception_timestamp < sent_at
    pub soon : d + (sent_at - heard.reception_timestamp) ≤ 4294967296

  module _ (m d : ℕ) (h : Cascade m d) where
    -- the delay of the relay alone
    abbrev own_delay : ℕ
    own_delay = sent_at - heard.reception_timestamp

    relay_delay-own : relay_state.skew ≡ c.skew → relay_delay heard relay_state ≡ own_delay
    unfolding relay_delay
    relay_delay-own same =
        ap (λ (k : ℕ → ℕ). k (sub64 sent_at heard.reception_timestamp)) same
        ∙ h.relay_skew (sub64 sent_at heard.reception_timestamp)
        ∙ delay_back sent_at heard.reception_timestamp (omega (arith, h.later))
            (omega (arith, h.soon))

    -- what the listener reads in the relay's frame
    sent_fields :
        heard.blink ≡ b
        → relay_state.skew ≡ c.skew
        → (sent_blink.rpt_count ≢ 0)
          × (sent_blink.epoch_to_rm_us ≡ b.epoch_to_rm_us)
          × (sent_blink.transmission_timestamp
              ≡ (b.transmission_timestamp + own_delay) % 18446744073709551616)
          × (sent_blink.transmission_interval ≡ dtu40 (sub64 b.transmission_interval own_delay))
    unfolding relay_blink
    sent_fields same skew =
        let delay = relay_delay-own skew in
        (
          λ e. absurd (omega (arith, ap (λ k. k.rpt_count) same, h.hops, e)),
          ap (λ k. k.epoch_to_rm_us) same,
          rw (ap (λ k. k.transmission_timestamp) same, delay) refl,
          rw (ap (λ k. k.transmission_interval) same, delay) refl,
        )

    -- what the listener makes of them
    listener_epochs :
        heard.blink ≡ b
        → relay_state.skew ≡ c.skew
        → (listener_state.local_epoch
            ≡ dtu40 (sub64 (sub64 l.dev.rxtimestamp (lead clock b c)) (d + own_delay)))
          × (listener_state.master_epoch
              ≡ sub64
                  (sub64
                    ((b.transmission_timestamp + own_delay) % 18446744073709551616)
                    (lead clock b c))
                  (d + own_delay))
    listener_epochs same skew =
        let (again, e, ts, ti) = sent_fields same skew in
        let (_, _, local, master, _) = repeated clock' sent_blink l again h.listener_plain in
        let less =
          interval_less m d own_delay b.transmission_interval h.interval h.some_interval
            h.interval_fits h.soon in
        let told : repeat_dly clock' sent_blink l ≡ d + own_delay =
          ap (λ k. master_interval k - k) ti
          ∙ interval_back m (d + own_delay) (dtu40 (sub64 b.transmission_interval own_delay)) less
              (omega (arith, h.later)) h.soon in
        (
          local
              ∙ ap
                  (λ k.
                    dtu40 (sub64 (sub64 l.dev.rxtimestamp (sent_blink.epoch_to_rm_us * 65536)) k))
                  (h.listener_skew (repeat_dly clock' sent_blink l) ∙ told)
              ∙ ap (λ k. dtu40 (sub64 (sub64 l.dev.rxtimestamp (k * 65536)) (d + own_delay))) e,
          master ∙ rw (ts, e, told) refl,
        )

    -- how much too early the listener's epoch is: not at all behind the first relay
    abbrev pub early : ℕ
    early = if b.rpt_count == 0 then 0 else b.epoch_to_rm_us * 65536 + d

    -- A listener finds the same epoch of the master in the relay's frame as the relay has found; on its
    -- own clock that epoch lies as long before the reception as, on the relay's clock, the relay's
    -- epoch lies before the frame was sent, but where the relay has got the frame from a relay itself, the
    -- listener's epoch is too early by the delay that was told before and the time to the epoch.
    pub relayed_epochs :
        (listener_state.master_epoch ≡ relay_state.master_epoch)
        × (dtu40 (sub64 l.dev.rxtimestamp listener_state.local_epoch)
            ≡ dtu40 (sub64 sent_at relay_state.local_epoch + early))
    relayed_epochs = elim h.told [
      | inl first ↦
          let (same, local, master, skew) = direct clock b c first h.relay_plain in
          let (own, its) = listener_epochs (ap (λ k. k.blink) same) skew in
          let none_told : d ≡ 0 = h.told_none first in
          let at : heard.reception_timestamp ≡ c.dev.rxtimestamp =
            ap (λ k. k.reception_timestamp) same in
          let exact : early ≡ 0 =
            ap (λ r. if r == 0 then 0 else b.epoch_to_rm_us * 65536 + d) first in
          (
            its
                ∙ master_same b.transmission_timestamp own_delay d (lead clock b c) h.soon
                ∙ sub64_zero b.transmission_timestamp (lead clock b c) d none_told
                ∙ sym master,
            ap (λ k. dtu40 (sub64 l.dev.rxtimestamp k)) own
                ∙ local_back l.dev.rxtimestamp (lead clock b c) (d + own_delay) h.soon
                ∙ direct_end c.dev.rxtimestamp (lead clock b c) own_delay d sent_at
                    relay_state.local_epoch early (omega (arith, at, h.later)) local none_told exact
                    (omega (arith, h.soon)),
          )
      | inr (again, pos) ↦
          let (same, at, local, master, skew) = repeated clock b c again h.relay_plain in
          let (own, its) = listener_epochs same skew in
          let told : repeat_dly clock b c ≡ d =
            interval_back m d b.transmission_interval h.interval pos (omega (arith, h.soon)) in
          let late : early ≡ b.epoch_to_rm_us * 65536 + d =
            ap (λ t. if t then 0 else b.epoch_to_rm_us * 65536 + d) (ne→== b.rpt_count 0 again) in
          (
            its
                ∙ master_same b.transmission_timestamp own_delay d (lead clock b c) h.soon
                ∙ sym (master ∙ ap (sub64 (sub64 b.transmission_timestamp (lead clock b c))) told),
            ap (λ k. dtu40 (sub64 l.dev.rxtimestamp k)) own
                ∙ local_back l.dev.rxtimestamp (lead clock b c) (d + own_delay) h.soon
                ∙ repeated_end (lead clock b c) own_delay d sent_at relay_state.local_epoch early
                    (omega (arith, at, h.later)) late (omega (arith, h.soon)),
          )
    ]
