-- ===== src/Ccp/Receive/Valid.antt =====
-- How many packets make the clock valid.
use uwb_core.Common.{
  ℕ, suc, ◌+◌, ◌-◌, ◌%◌, ◌≤◌, ◌<◌, ◌≡◌, refl, ap, ◌∙◌, Bool, true, false, not, ◌||◌, ◌&&◌, List, [],
  ◌∷◌, if◌then◌else◌, ◌==◌, ltb, leb, length, if-both, Option-cases, inl, inr, arith,
}
use native.Mathlib.Decide.{dec_lt}
use uwb_core.Ccp.{Blink, CcpFrame, Dev, Ccp, Clock, adjust_for_epoch_to_rm}
use uwb_core.Ccp.Receive.{
  starts_anew, counted, reached, advance, count_valid, set_epochs, kept_frame, compensate_tof,
  compensate_relay, synchronise,
}

module _ {S : Type 0} (b : Blink) (c : Ccp S) where
  -- the result of the test of the number of packets
  abbrev pub Checked : CcpFrame × Ccp S → Type 0
  Checked (_, d) =
      (d.valid
        ≡ (if starts_anew b c then c.settings.valid_threshold == 0 else c.valid || reached c))
      × (d.valid_count ≡ (if starts_anew b c then 0 else counted c))
      × (d.settings ≡ c.settings)

  compensate_tof-Checked : (p : CcpFrame × Ccp S) → Checked p → Checked (compensate_tof p)
  unfolding compensate_tof
  compensate_tof-Checked (f, d) h = elim (Option-cases d.tof_comp_cb) [
    | inl e ↦ rw e h
    | inr (cb, e) ↦ rw e h
  ]

  compensate_relay-Checked : (p : CcpFrame × Ccp S) → Checked p → Checked (compensate_relay p)
  unfolding compensate_relay
  compensate_relay-Checked (f, d) h = if-both Checked (f.blink.rpt_count == 0) (f, d) _ h h

  pub synchronise-Checked : (clock : Clock) → Checked (synchronise clock b c)
  unfolding synchronise advance count_valid set_epochs adjust_for_epoch_to_rm
  synchronise-Checked clock =
      compensate_relay-Checked
        (compensate_tof (kept_frame b c, set_epochs b (count_valid b (advance clock b c))))
        (compensate_tof-Checked (kept_frame b c, set_epochs b (count_valid b (advance clock b c)))
          (refl, refl, refl))

-- A packet as it arrives.
pub record Arrival : Type 0 where
  pub clock : Clock
  pub blink : Blink
  pub dev : Dev

module _ {S : Type 0} where
  -- the instance after a packet
  abbrev pub arrives : Arrival → Ccp S → Ccp S
  arrives a c = (synchronise a.clock a.blink (record c { dev = a.dev })).1

  abbrev pub arrive_all : List Arrival → Ccp S → Ccp S
  arrive_all [] c = c
  arrive_all (a ∷ xs) c = arrive_all xs (arrives a c)

  -- All packets are of the master that is followed, and none is older than the epoch.
  abbrev pub Continue : List Arrival → Ccp S → Type 0
  Continue [] c = Unit
  Continue (a ∷ xs) c = (starts_anew a.blink c ≡ false) × Continue xs (arrives a c)

-- the packets that the clock takes to be valid: two at least
abbrev pub needed : ℕ → ℕ
needed t = if ltb t 2 then 2 else t

-- the count after a packet that continues the series, and the test then
next_count : ℕ → ℕ → ℕ
next_count t k = if ltb k (t - 1) then (k + 1) % 8 else k

next_valid : ℕ → ℕ → Bool → Bool
next_valid t k v = v || (not (t == 0) && (next_count t k == (t - 1)))

next_count_le : (t k : ℕ) → t ≤ 8 → k ≤ t - 1 → next_count t k ≤ t - 1
unfolding next_count
next_count_le t k few le = ground arith

next_count_lt : (t k : ℕ) → k < 8 → next_count t k < 8
unfolding next_count
next_count_lt t k lt = ground arith

valid_one :
    (t k : ℕ) (v : Bool) → 0 < t → t ≤ 8 → k ≤ t - 1 → next_valid t k v ≡ v || leb (t - 1) (k + 1)
unfolding next_valid next_count
valid_one t k v pos few le = ground arith

valid_more :
    (t k n : ℕ) (v : Bool)
    → 0 < t
    → t ≤ 8
    → k ≤ t - 1
    → next_valid t k v || leb (t - 1) (next_count t k + suc n) ≡ v || leb (t - 1) (k + suc (suc n))
unfolding next_valid next_count
valid_more t k n v pos few le = ground arith

-- the three bits never hold the last count of a threshold above 8
valid_never : (t k : ℕ) → 8 < t → k < 8 → next_valid t k false ≡ false
unfolding next_valid next_count
valid_never t k many lt = ground arith

module _ {S : Type 0} where
  -- one packet that continues the series
  arrives-next :
      (a : Arrival) (c : Ccp S)
      → starts_anew a.blink c ≡ false
      → ((arrives a c).valid ≡ next_valid c.settings.valid_threshold c.valid_count c.valid)
        × ((arrives a c).valid_count ≡ next_count c.settings.valid_threshold c.valid_count)
        × ((arrives a c).settings ≡ c.settings)
  unfolding next_valid next_count
  arrives-next a c same =
      let (v, n, s) = synchronise-Checked a.blink (record c { dev = a.dev }) a.clock in
      (
        v ∙ ap (λ t. if t then c.settings.valid_threshold == 0 else c.valid || reached c) same,
        n ∙ ap (λ t. if t then 0 else counted c) same,
        s,
      )

  -- from a packet that starts a series
  arrives-first :
      (a : Arrival) (c : Ccp S)
      → starts_anew a.blink c ≡ true
      → ((arrives a c).valid ≡ (c.settings.valid_threshold == 0))
        × ((arrives a c).valid_count ≡ 0)
        × ((arrives a c).settings ≡ c.settings)
  arrives-first a c anew =
      let (v, n, s) = synchronise-Checked a.blink (record c { dev = a.dev }) a.clock in
      (
        v ∙ ap (λ t. if t then c.settings.valid_threshold == 0 else c.valid || reached c) anew,
        n ∙ ap (λ t. if t then 0 else counted c) anew,
        s,
      )

  series :
      (a : Arrival) (xs : List Arrival) (c : Ccp S) (t k : ℕ) (v : Bool)
      → 0 < t
      → t ≤ 8
      → k ≤ t - 1
      → c.settings.valid_threshold ≡ t
      → c.valid_count ≡ k
      → c.valid ≡ v
      → Continue (a ∷ xs) c
      → (arrive_all (a ∷ xs) c).valid ≡ v || leb (t - 1) (k + length (a ∷ xs))
  series a [] c t k v pos few le et ek ev (same, _) =
      let (valid, _, _) = arrives-next a c same in
      valid ∙ rw (et, ek, ev) (valid_one t k v pos few le)
  series a (a' ∷ xs) c t k v pos few le et ek ev (same, rest) =
      let (valid, count, settings) = arrives-next a c same in
      series a' xs (arrives a c) t (next_count t k) (next_valid t k v) pos few
        (next_count_le t k few le) (ap (λ x. x.valid_threshold) settings ∙ et)
        (count ∙ rw (et, ek) refl) (valid ∙ rw (et, ek, ev) refl) rest
      ∙ valid_more t k (length xs) v pos few le

  series_never :
      (xs : List Arrival) (c : Ccp S) (t k : ℕ)
      → 8 < t
      → k < 8
      → c.settings.valid_threshold ≡ t
      → c.valid_count ≡ k
      → c.valid ≡ false
      → Continue xs c
      → (arrive_all xs c).valid ≡ false
  series_never [] c t k many lt et ek ev rest = ev
  series_never (a ∷ xs) c t k many lt et ek ev (same, rest) =
      let (valid, count, settings) = arrives-next a c same in
      series_never xs (arrives a c) t (next_count t k) many (next_count_lt t k lt)
        (ap (λ x. x.valid_threshold) settings ∙ et) (count ∙ rw (et, ek) refl)
        (valid ∙ rw (et, ek, ev) (valid_never t k many lt)) rest

  -- For a threshold of one or more, from the first packet of a master on, while no packet of another
  -- one and no older one comes, the clock is valid exactly if the threshold is at most 8 and the
  -- number of packets has reached it and is not 1: one packet alone never makes the clock valid, and
  -- with a threshold of 9 or more no number of packets does.
  pub arrive_all-valid :
      (a : Arrival) (xs : List Arrival) (c : Ccp S)
      → 0 < c.settings.valid_threshold
      → starts_anew a.blink c ≡ true
      → Continue xs (arrives a c)
      → (arrive_all (a ∷ xs) c).valid
        ≡ leb c.settings.valid_threshold 8
          && leb (needed c.settings.valid_threshold) (length (a ∷ xs))
  arrive_all-valid a [] c pos anew rest =
      let (valid, _, _) = arrives-first a c anew in valid ∙ ground arith
  arrive_all-valid a (a' ∷ xs) c pos anew rest =
      let (valid, count, settings) = arrives-first a c anew in
      let unset : (c.settings.valid_threshold == 0) ≡ false = ground arith in
      elim (dec_lt 8 c.settings.valid_threshold) [
        | yes many ↦
            series_never (a' ∷ xs) (arrives a c) c.settings.valid_threshold 0 many (omega arith)
              (ap (λ x. x.valid_threshold) settings) count (valid ∙ unset) rest
            ∙ ground (arith, many)
        | no few ↦
            series a' xs (arrives a c) c.settings.valid_threshold 0 false pos (omega arith)
              (omega arith) (ap (λ x. x.valid_threshold) settings) count (valid ∙ unset) rest
            ∙ ground (arith, few)
      ]
