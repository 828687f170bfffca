-- ===== src/Nrng/Spacing.antt =====
-- The answers to a request follow one another: each node waits for the slots of the nodes before it.
use mathlib.Core.Option.{some-injective}
use uwb_core.Common.{
  ℕ, ◌+◌, ◌-◌, ◌*◌, ◌^◌, ◌≤◌, ◌<◌, ◌≡◌, ◌≢◌, ltb, not, Bool, true, false, if◌then◌else◌, ◌==◌, refl,
  Option, none, some, arith, u16,
}
use uwb_core.RngSlots.{and_bits, bit_index, number_of_bits, slot_position}
use uwb_core.RngSlots.Count.{two_to, ones_le, number_of_bits_lem}
use uwb_core.RngSlots.Rank.{agree_lem}
use uwb_core.RngSlots.Places.{bit_index-Ordered}
use uwb_core.Nrng.{Dev, RngConfig, request_len}
use uwb_core.Nrng.Receive.{Received, my_slot, response_start}

pub two_to-pow : (i : ℕ) → i < 32 → 2 ^ i ≡ two_to i
two_to-pow i lt = agree_lem (λ n. 2 ^ n) two_to 32 i refl lt

-- a product and the next one
pub next_multiple : (s t x : ℕ) → s < t → s * x + x ≤ t * x
next_multiple s t x lt = grind arith

-- what follows from a result behind a guard
past_guard {ℓ} :
    {A : Type ℓ}
    → (b : Bool) → (rest : Option A) → (a : A) → (if b then none else rest) ≡ some a
    → (b ≡ false) × (rest ≡ some a)
past_guard true rest a eq = absurd (cc)
past_guard false rest a eq = (refl, eq)

not_zero : (n : ℕ) → (n == 0) ≡ false → n ≢ 0
not_zero n eq = ground arith

pub my_slot_member :
    (dev : Dev)
    → (r : Received) → (s : ℕ) → my_slot dev r ≡ some s
    → (and_bits 32 r.frame.slot_mask (2 ^ dev.slot_id) ≢ 0)
      × (u16 (bit_index r.frame.slot_mask (2 ^ dev.slot_id) slot_position) ≡ s)
unfolding my_slot
my_slot_member dev r s eq =
    let (_, long) = past_guard (ltb r.frame_len request_len) _ s eq in
    let (_, cells) = past_guard (not (r.frame.ptype == 0)) _ s long in
    let (_, mine) = past_guard (not (r.frame.cell_id == dev.cell_id)) _ s cells in
    let (member, slot) =
      past_guard (and_bits 32 r.frame.slot_mask (2 ^ dev.slot_id) == 0) _ s mine in
    (not_zero (and_bits 32 r.frame.slot_mask (2 ^ dev.slot_id)) member, some-injective _ _ slot)

-- the slots of two members
pub slots_apart :
    (mask i j s t : ℕ)
    → mask < 2 ^ 32
    → i < j
    → j < 32
    → (and_bits 32 mask (2 ^ i) ≢ 0) × (u16 (bit_index mask (2 ^ i) slot_position) ≡ s)
    → (and_bits 32 mask (2 ^ j) ≢ 0) × (u16 (bit_index mask (2 ^ j) slot_position) ≡ t)
    → (s < t) × (t < number_of_bits mask) × (t < 32)
slots_apart mask i j s t bound before lt (mi, si) (mj, tj) =
    let wi = two_to-pow i (omega arith) in
    let wj = two_to-pow j lt in
    let (order, inside) = bit_index-Ordered mask i j bound before lt (rw wi at mi) (rw wj at mj) in
    let all_bits : number_of_bits mask ≤ 32 =
      omega (arith, number_of_bits_lem mask bound, ones_le 32 mask) in
    let s_eq = rw wi at si in let t_eq = rw wj at tj in omega arith

-- the answer's start after the reception, where the clock of 64 bits does not wrap round
start_after :
    (config : RngConfig)
    → (d rxtime s : ℕ) → s < 32
    → rxtime < 2 ^ 40
    → (config.tx_holdoff_delay + 32 * (config.tx_guard_delay + d)) * 2 ^ 16 < 2 ^ 63
    → response_start config d rxtime s
      ≡ rxtime + (config.tx_holdoff_delay + s * (config.tx_guard_delay + d)) * 2 ^ 16
start_after config d rxtime s lt rx bound =
    let most = next_multiple s 32 (config.tx_guard_delay + d) lt in omega arith

-- Of two nodes that answer the same request, the one with the later bit starts later after its
-- reception of the request, by a guard delay and the duration of a frame at least.
pub response_start-Spaced :
    (config : RngConfig)
    → (d : ℕ) → (a b : Dev) → (ra rb : Received) → (s t : ℕ) → ra.frame ≡ rb.frame
    → ra.frame.slot_mask < 2 ^ 32
    → a.slot_id < b.slot_id
    → b.slot_id < 32
    → my_slot a ra ≡ some s
    → my_slot b rb ≡ some t
    → ra.rxtimestamp < 2 ^ 40
    → rb.rxtimestamp < 2 ^ 40
    → (config.tx_holdoff_delay + 32 * (config.tx_guard_delay + d)) * 2 ^ 16 < 2 ^ 63
    → response_start config d ra.rxtimestamp s
        - ra.rxtimestamp
        + (config.tx_guard_delay + d) * 2 ^ 16
      ≤ response_start config d rb.rxtimestamp t - rb.rxtimestamp
response_start-Spaced config d a b ra rb s t same bound before lt sa tb rxa rxb fits =
    let mine = my_slot_member a ra s sa in
    let ma = rw same at mine in
    let mb = my_slot_member b rb t tb in
    let (order, _, inside) =
      slots_apart rb.frame.slot_mask a.slot_id b.slot_id s t (rw same at bound) before lt ma mb in
    rw
      (
        start_after config d ra.rxtimestamp s (omega arith) rxa fits,
        start_after config d rb.rxtimestamp t inside rxb fits,
      )
      (omega (arith, next_multiple s t (config.tx_guard_delay + d) order))
