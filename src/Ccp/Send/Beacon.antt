-- ===== src/Ccp/Send/Beacon.antt =====
-- The times of a master's packets.
use uwb_core.Common.{
  ℕ, ◌+◌, ◌*◌, ◌/◌, ◌%◌, ◌<◌, ◌≡◌, refl, ap, ◌∙◌, Bool, true, false, ◌&&◌, ◌||◌, [], ◌∷◌, List,
  length, get_or, set, length-set, get_or-set_self, if◌then◌else◌, ◌==◌, if-both, ltb, not, u16,
  arith,
}
use native.Mathlib.Nat.{mod-lt}
use uwb_core.Mac.{dtu40}
use uwb_core.Ccp.{
  CcpFrame, zero_ccp_frame, ccp_master, Ccp, Clock, ask, timer_start, put_postprocess, frame_at,
  call_superframe, adjust_for_epoch_to_rm,
}
use uwb_core.Ccp.Send.{
  next_start, next_blink, start_beacon, sent_epochs, next_wake, rearm, announce_sent,
  tx_complete_cb,
}

-- A time on the grid of 512 units, and the next one behind it by an antenna's delay.
gap :
    (x ant y last period delay : ℕ)
    → last ≡ (x / 512 * 512 + ant) % 18446744073709551616
    → period ≡ y
    → delay ≡ ant
    → x / 512 * 512 + 2 * ant + y * 65536 < 18446744073709551616
    → y < 16777216
    → ((last + period * 65536) % 18446744073709551616 / 512 * 512 + delay) % 18446744073709551616
      ≡ (x / 512 * 512 + ant) % 18446744073709551616 + dtu40 (y * 65536) + ant / 512 * 512
gap x ant y last period delay e p q room short = omega arith

if_false :
    {A : Type 0} (P : A → Type 0) (b : Bool) (x y : A) → b ≡ false → P y → P (if b then x else y)
if_false P true x y e py = absurd (ground arith)
if_false P false x y e py = py

module _ {S : Type 0} where
  -- what the next packet is made of
  abbrev Keeps : Ccp S → Ccp S → Type 0
  Keeps c d = (d.frames ≡ c.frames) × (d.idx ≡ c.idx) × (d.period ≡ c.period) × (d.dev ≡ c.dev)

  rearm-Keeps : (timer_rc : ℕ) (c d : Ccp S) → Keeps c d → Keeps c (rearm timer_rc d)
  unfolding rearm
  rearm-Keeps timer_rc c d h =
      if-both (Keeps c) d.timer_enabled
        (record (ask (timer_start (next_wake d) ∷ []) d) {
          timer_restarted = (timer_rc == 0) || d.timer_restarted;
        })
        d h h

  announce_sent-Keeps : (c d : Ccp S) → Keeps c d → Keeps c (announce_sent d)
  unfolding announce_sent
  announce_sent-Keeps c d h =
      let e = call_superframe (record d { valid = d.valid || ltb 1 d.idx }) in
      if-both (Keeps c) (e.postprocess && e.valid) (ask (put_postprocess ∷ []) e) e h h

  -- the end of a transmission, as far as the next packet is concerned
  tx_complete_cb-Keeps :
      (clock : Clock) (timer_rc : ℕ) (c : Ccp S)
      → c.sem ≡ 0
      → c.role ≡ ccp_master
      → Keeps
          (sent_epochs clock (record c { idx = u16 (c.idx + 1) }))
          (tx_complete_cb clock timer_rc c).1
  unfolding tx_complete_cb
  tx_complete_cb-Keeps clock timer_rc c free master =
      let d = sent_epochs clock (record c { idx = u16 (c.idx + 1) }) in
      if_false (λ (r : Bool × Ccp S). Keeps d r.1) (c.sem == 1) (false, c) _ (ap (λ n. n == 1) free)
        (if_false (λ (r : Bool × Ccp S). Keeps d r.1) (not (c.role == ccp_master)) (false, c) _
          (ap (λ n. not (n == ccp_master)) master)
          (announce_sent-Keeps d (rearm timer_rc d)
            (rearm-Keeps timer_rc d d (refl, refl, refl, refl))))

  -- the state at the end of the transmission that `start_beacon` begins
  abbrev pub sent_from : Clock → ℕ → Ccp S → Ccp S
  sent_from clock timer_rc c = (tx_complete_cb clock timer_rc (start_beacon c)).1

  -- the frame that was stored
  abbrev stored : Ccp S → CcpFrame
  stored c = record (frame_at (c.idx + 1) c) { blink = next_blink c }

  abbrev stored_frames : Ccp S → List CcpFrame
  stored_frames c = set c.frames ((c.idx + 1) % length c.frames) (stored c)

  abbrev previous_timestamp : Ccp S → ℕ
  previous_timestamp c = (frame_at c.idx c).blink.transmission_timestamp

  last_stored :
      (c : Ccp S)
      → 0 < length c.frames
      → c.idx + 1 < 65536
      → get_or (stored_frames c) (u16 (c.idx + 1) % length (stored_frames c)) zero_ccp_frame
        ≡ stored c
  last_stored c some small =
      let n = length-set c.frames ((c.idx + 1) % length c.frames) (stored c) in
      let at : u16 (c.idx + 1) % length (stored_frames c) ≡ (c.idx + 1) % length c.frames =
        ap (λ k. u16 (c.idx + 1) % k) n
        ∙ ap (λ k. k % length c.frames) (let e : u16 (c.idx + 1) ≡ c.idx + 1 = omega arith in e) in
      ap (λ k. get_or (stored_frames c) k zero_ccp_frame) at
      ∙ get_or-set_self c.frames ((c.idx + 1) % length c.frames) (stored c) zero_ccp_frame
          (mod-lt (c.idx + 1) some)

  -- A packet that the master sends follows the one before, as their timestamps have it, not after the
  -- interval that the packet announces but later by the delay of the antenna, rounded down to the
  -- 512 units of a delayed start.
  pub beacon_gap :
      (clock : Clock) (timer_rc : ℕ) (c : Ccp S)
      → c.sem ≡ 0
      → c.role ≡ ccp_master
      → 0 < length c.frames
      → c.idx + 1 < 65536
      → c.period < 16777216
      → next_start c + 2 * c.dev.tx_antenna_delay + c.period * 65536 < 18446744073709551616
      → (next_blink (sent_from clock timer_rc c)).transmission_timestamp
        ≡ (next_blink c).transmission_timestamp
          + (next_blink c).transmission_interval
          + c.dev.tx_antenna_delay / 512 * 512
  unfolding next_blink next_start start_beacon sent_epochs adjust_for_epoch_to_rm
  beacon_gap clock timer_rc c free master some small short room =
      let d = sent_from clock timer_rc c in
      let keeps = tx_complete_cb-Keeps clock timer_rc (start_beacon c) free master in
      let (frames, idx, period, dev) = keeps in
      let last = last_stored c some small in
      let found : frame_at d.idx d ≡ stored c =
        ap (λ fs. get_or fs (d.idx % length fs) zero_ccp_frame) frames
        ∙ ap (λ i. get_or (stored_frames c) (i % length (stored_frames c)) zero_ccp_frame) idx
        ∙ last in
      let same : dtu40 (c.period * 65536) / 65536 ≡ c.period = omega arith in
      gap ((previous_timestamp c + c.period * 65536) % 18446744073709551616) c.dev.tx_antenna_delay
        c.period (frame_at d.idx d).blink.transmission_timestamp d.period d.dev.tx_antenna_delay
        (ap (λ f. f.blink.transmission_timestamp) found)
        (period ∙ ap (λ f. f.blink.transmission_interval / 65536) last ∙ same)
        (ap (λ k. k.tx_antenna_delay) dev) room short
