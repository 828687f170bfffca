-- ===== src/Pan/Receive/Outcome.antt =====
-- The branches of the receive callback, each with its condition.
use uwb_core.Common.{
  ℕ, ◌≡◌, refl, Bool, true, false, Option, some, ◌&&◌, inl, inr, Bool-cases, ◌==◌, ltb, ==_iff,
  ==_refl,
}
use uwb_core.PanUtils.{ReqResp}
use uwb_core.Pan.Frame.{blink_tag, frame_size, received}
use uwb_core.Pan.Instance.{Pan, stop_rx, stop_lease, role_master, ask, frame, set_frame}
use uwb_core.Common.{[], ◌∷◌}
use uwb_core.Pan.Receive.{
  pan_req, pan_resp, pan_reset_code, finish, answer_by, handle_pan_request, relays, relay, accept,
  on_code, rx_complete_cb,
}

module _ {S : Type 0} where
  -- the state that a reset leaves
  abbrev pub cleared : Pan S → Pan S
  cleared p =
      ask (stop_lease ∷ [])
        (record p { valid = false; lease_expired = true; dev = record p.dev { slot_id = 0xffff } })

  pub data CodeOutcome (epoch : Option ℕ) (e : Bool) (p : Pan S) : Bool × Pan S → Type 0 where
    answers :
        ((frame p).code == pan_req) ≡ true
        → (p.role == role_master) ≡ true
        → CodeOutcome epoch e p (finish (handle_pan_request e (ask (stop_rx ∷ []) p)))
    accepts :
        ((frame p).code == pan_resp) ≡ true
        → ((frame p).long_address == p.dev.euid) ≡ true
        → CodeOutcome epoch e p (finish (accept epoch p))
    clears :
        ((frame p).code == pan_reset_code) ≡ true
        → (p.role == role_master) ≡ false
        → CodeOutcome epoch e p (false, cleared p)
    ignores : (handled : Bool) → CodeOutcome epoch e p (handled, p)

  pub on_code-Outcome :
      (epoch : Option ℕ) (e : Bool) (p : Pan S) → CodeOutcome epoch e p (on_code epoch e p)
  unfolding on_code
  on_code-Outcome epoch e p = elim (Bool-cases ((frame p).code == pan_req)) [
    | inl request ↦ elim (Bool-cases (p.role == role_master)) [
      | inl master ↦ rw (request, master, on_code) (answers request master)
      | inr node ↦ rw (request, node, on_code) (ignores true)
    ]
    | inr no_request ↦ elim (Bool-cases ((frame p).code == pan_resp)) [
      | inl response ↦ elim (Bool-cases ((frame p).long_address == p.dev.euid)) [
        | inl mine ↦ rw (no_request, response, mine, on_code) (accepts response mine)
        | inr other ↦ rw (no_request, response, other, on_code) (ignores true)
      ]
      | inr no_response ↦ elim (Bool-cases ((frame p).code == pan_reset_code)) [
        | inl reset ↦ elim (Bool-cases (p.role == role_master)) [
          | inl master ↦ rw (no_request, no_response, reset, master, on_code) (ignores false)
          | inr node ↦ rw (no_request, no_response, reset, node, on_code) (clears reset node)
        ]
        | inr no_reset ↦ rw (no_request, no_response, no_reset, on_code) (ignores false)
      ]
    ]
  ]

  -- the state in which the frame that arrived is looked at
  abbrev pub taken : Bool → Pan S → Pan S
  taken e p = relay e (set_frame (received p.dev.frame_len p.dev.rxbuf (frame p)) p)

  pub data RxOutcome (epoch : Option ℕ) (e : Bool) (p : Pan S) : Bool × Pan S → Type 0 where
    gives_up : p.sem ≡ 0 → RxOutcome epoch e p (false, record p { sem = 1 })
    passes_on : RxOutcome epoch e p (false, p)
    takes :
        (r : Bool × Pan S)
        → (p.dev.fctrl == blink_tag) ≡ true
        → (p.sem == 1) ≡ false
        → ltb frame_size p.dev.frame_len ≡ false
        → CodeOutcome epoch e (taken e p) r
        → RxOutcome epoch e p r

  pub rx_complete_cb-Outcome :
      (epoch : Option ℕ) (e : Bool) (p : Pan S) → RxOutcome epoch e p (rx_complete_cb epoch e p)
  unfolding rx_complete_cb
  rx_complete_cb-Outcome epoch e p = elim (Bool-cases (p.dev.fctrl == blink_tag)) [
    | inl tag ↦ elim (Bool-cases (p.sem == 1)) [
      | inl free ↦ rw (tag, free, rx_complete_cb) passes_on
      | inr busy ↦ elim (Bool-cases (ltb frame_size p.dev.frame_len)) [
        | inl long ↦ rw (tag, busy, long, rx_complete_cb) passes_on
        | inr fits ↦
            rw (tag, busy, fits, rx_complete_cb)
              (takes _ tag busy fits (on_code-Outcome epoch e (taken e p)))
      ]
    ]
    | inr other ↦ elim (Bool-cases (p.sem == 0)) [
      | inl zero_count ↦
          rw (other, zero_count, rx_complete_cb) (gives_up ((==_iff p.sem 0).0 zero_count))
      | inr n ↦ rw (other, n, rx_complete_cb) passes_on
    ]
  ]

  -- A frame of the right kind, not too long, that comes while an exchange runs, is looked at.
  pub rx_complete_cb-takes :
      (epoch : Option ℕ) (e : Bool) (p : Pan S)
      → p.dev.fctrl ≡ blink_tag
      → p.sem ≡ 0
      → ltb frame_size p.dev.frame_len ≡ false
      → rx_complete_cb epoch e p ≡ on_code epoch e (taken e p)
  unfolding rx_complete_cb
  rx_complete_cb-takes epoch e p tag busy short = rw (tag, busy, short, rx_complete_cb) refl

  pub relay-quiet : (e : Bool) (p : Pan S) → relays p ≡ false → relay e p ≡ p
  unfolding relay
  relay-quiet e p quiet = rw (quiet, relay) refl

  pub on_code-request :
      (epoch : Option ℕ) (e : Bool) (p : Pan S)
      → (frame p).code ≡ pan_req
      → p.role ≡ role_master
      → on_code epoch e p ≡ finish (handle_pan_request e (ask (stop_rx ∷ []) p))
  unfolding on_code
  on_code-request epoch e p code master = rw (code, master, on_code) refl

  pub on_code-response :
      (epoch : Option ℕ) (e : Bool) (p : Pan S)
      → (frame p).code ≡ pan_resp
      → (frame p).long_address ≡ p.dev.euid
      → on_code epoch e p ≡ finish (accept epoch p)
  unfolding on_code
  on_code-response epoch e p code mine = rw (code, mine, ==_refl p.dev.euid, on_code) refl

  pub handle_pan_request-set :
      (e : Bool) (p : Pan S) (cb : ℕ → ReqResp → S → Bool × ReqResp × S)
      → p.request_cb ≡ some cb
      → handle_pan_request e p ≡ answer_by cb e p
  unfolding handle_pan_request
  handle_pan_request-set e p cb at = rw at refl

  pub relays-master : (p : Pan S) → p.role ≡ role_master → relays p ≡ false
  unfolding relays
  relays-master p master = rw master refl

  pub relays-mine : (p : Pan S) → (frame p).long_address ≡ p.dev.euid → relays p ≡ false
  unfolding relays
  relays-mine p mine = rw (mine, ==_refl p.dev.euid) (and_false _)
    where
      and_false : (b : Bool) → (b && false) ≡ false
      and_false true = refl
      and_false false = refl
