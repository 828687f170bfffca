-- ===== src/Nrng/Exchange.antt =====
-- A request to many nodes and its answers: what `nrng_get_ranges` finds in the frame buffers.
use uwb_core.Common.{
  ℕ, ◌+◌, ◌%◌, ◌^◌, ◌≤◌, ◌<◌, ◌≡◌, ◌≢◌, ap, ◌∙◌, some, List, [], ◌∷◌, ◌++◌, arith,
}
use uwb_core.RngSlots.{and_bits}
use uwb_core.Nrng.{
  NrngFrame, Dev, RngConfig, Nrng, put, fctrl_range, ss_nrng_t1, response_len, set_rx_timeout,
}
use uwb_core.Nrng.Receive.{
  Received, my_slot, response_frame, rx_complete_cb, final_frame, rest_timeout,
}
use uwb_core.Nrng.Ring.{place, place_lt}
use uwb_core.Nrng.Spacing.{my_slot_member}

-- a response of node `i` to the request that the instance has out
pub record Answers (nrng : Nrng) (i : ℕ) (r : Received) : Type 0 where
  pub below : i < 32
  pub member : and_bits 32 nrng.slot_mask (2 ^ i) ≢ 0
  pub in_slot : r.frame.slot_id ≡ place nrng.slot_mask i
  pub in_turn : r.frame.seq_num ≡ nrng.seq_num
  pub whole : response_len ≤ r.frame_len
  pub ranging : r.fctrl ≡ fctrl_range
  pub to_us : r.frame.dst_address ≡ nrng.dev.my_short_address
  pub response : r.frame.code ≡ ss_nrng_t1
  pub waiting : nrng.sem ≡ 0

module _ (config : RngConfig) (guard_usecs duration dwt_duration : ℕ) where
  -- the instance after the callback
  unfoldable pub receive : Received → Nrng → Nrng
  unfolding rx_complete_cb
  receive r nrng = (rx_complete_cb config guard_usecs duration dwt_duration r nrng).1

  abbrev stored : Received → Nrng → Nrng
  stored r nrng =
      let at = (nrng.idx + r.frame.slot_id) % nrng.nframes in
      record nrng {
        frames = put at (final_frame nrng.dev r (nrng.frames at)) nrng.frames;
        calls =
            nrng.calls
            ++ set_rx_timeout (rest_timeout config guard_usecs duration nrng.nnodes r.frame.slot_id)
              ∷ [];
      }

  -- all receptions in turn
  abbrev pub receive_all : List (ℕ × Received) → Nrng → Nrng
  receive_all [] nrng = nrng
  receive_all ((i, r) ∷ rs) nrng = receive_all rs (receive r nrng)

  abbrev pub AllAnswers : Nrng → List (ℕ × Received) → Type 0
  AllAnswers nrng [] = Unit {0}
  AllAnswers nrng ((i, r) ∷ rs) = Answers nrng i r × AllAnswers nrng rs

-- what a node of the request sends is such a response
pub Answers-response :
    (nrng : Nrng)
    → (dev : Dev) → (request r : Received) → (old : NrngFrame) → (s start : ℕ)
    → my_slot dev request ≡ some s
    → dev.slot_id < 32
    → request.frame.slot_mask < 2 ^ 32
    → request.frame.slot_mask ≡ nrng.slot_mask
    → request.frame.seq_num ≡ nrng.seq_num
    → request.frame.src_address ≡ nrng.dev.my_short_address
    → nrng.sem ≡ 0
    → r.frame ≡ response_frame dev s start request old
    → r.fctrl ≡ fctrl_range
    → response_len ≤ r.frame_len
    → Answers nrng dev.slot_id r
unfolding response_frame
Answers-response nrng dev request r old s start slot lt bound mask seq src waiting sent ranging
      whole =
    let mine = my_slot_member dev request s slot in
    let (member, s_eq) = rw mask at mine in
    record {
      below = lt;
      member = member;
      in_slot =
          ap (λ f. f.slot_id) sent ∙ omega (arith, place_lt nrng.slot_mask dev.slot_id lt member);
      in_turn = ap (λ f. f.seq_num) sent ∙ seq;
      whole = whole;
      ranging = ranging;
      to_us = ap (λ f. f.dst_address) sent ∙ src;
      response = ap (λ f. f.code) sent;
      waiting = waiting;
    }
