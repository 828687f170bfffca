-- ===== src/Pan/Identity.antt =====
-- Where a node's address and slot come from.
use uwb_core.Common.{
  ℕ, ◌%◌, ◌<◌, ◌≡◌, ◌≢◌, refl, sym, ap, ◌∙◌, Bool, Option, length, length-set, get_or-set_self, inl,
  inr, Bool-cases, if-both, ◌==◌, ==_iff, ==_refl, arith, Option-cases,
}
use uwb_core.PanUtils.{ReqResp}
use uwb_core.Pan.Frame.{PanFrame, received}
use uwb_core.Pan.Instance.{Dev, Pan, role_master, frame, set_frame, zero_frame}
use uwb_core.Pan.Receive.{
  pan_resp, pan_reset_code, finish, answer_by, handle_pan_request, relays, repeated, relay, accept,
  rx_complete_cb,
}
use uwb_core.Pan.Receive.Outcome.{
  taken, CodeOutcome, answers, accepts, clears, ignores, RxOutcome, gives_up, passes_on, takes,
  rx_complete_cb-Outcome,
}

-- How a node's device may change when the frame `f` arrives.
pub data Identity (f : PanFrame) (role : ℕ) (d d' : Dev) : Type 0 where
  kept : d'.uid ≡ d.uid → d'.pan_id ≡ d.pan_id → d'.slot_id ≡ d.slot_id → Identity f role d d'
  assigned :
      f.code ≡ pan_resp
      → f.long_address ≡ d.euid
      → d'.uid ≡ f.req.short_address
      → d'.pan_id ≡ f.req.pan_id
      → d'.slot_id ≡ f.req.slot_id
      → Identity f role d d'
  lost :
      f.code ≡ pan_reset_code
      → role ≢ role_master
      → d'.uid ≡ d.uid
      → d'.pan_id ≡ d.pan_id
      → d'.slot_id ≡ 0xffff
      → Identity f role d d'

module _ {S : Type 0} where
  pub idx-lt : (p : Pan S) → 0 < length p.frames → p.idx % length p.frames < length p.frames
  idx-lt p some_frame = omega arith

  pub frame-set_frame : (f : PanFrame) (p : Pan S) → 0 < length p.frames → frame (set_frame f p) ≡ f
  frame-set_frame f p some_frame =
      rw (length-set p.frames (p.idx % length p.frames) f)
        (get_or-set_self p.frames (p.idx % length p.frames) f zero_frame (idx-lt p some_frame))

  pub finish-dev : (p : Pan S) → (finish p).1.dev ≡ p.dev
  unfolding finish
  finish-dev p = elim (Bool-cases p.postprocess) [
    | inl on ↦ rw on (if-both Same (p.sem == 0) _ _ refl refl)
    | inr off ↦ rw off (if-both Same (p.sem == 0) _ _ refl refl)
  ]
    where
      Same : Pan S → Type 0
      Same q = q.dev ≡ p.dev

  pub handle_pan_request-dev : (e : Bool) (p : Pan S) → (handle_pan_request e p).dev ≡ p.dev
  unfolding handle_pan_request answer_by
  handle_pan_request-dev e p = elim (Option-cases p.request_cb) [
    | inl unset ↦ rw (unset, handle_pan_request) refl
    | inr (cb, at) ↦
        rw (at, handle_pan_request, answer_by)
          (if-both (λ (q : Pan S). q.dev ≡ p.dev) _ _ _ refl refl)
  ]

  -- A relay counts a repeat in the frame and leaves the rest of it.
  pub record Relayed (f : PanFrame) (p q : Pan S) : Type 0 where
    pub same_address : (frame q).long_address ≡ f.long_address
    pub same_code : (frame q).code ≡ f.code
    pub same_req : (frame q).req ≡ f.req
    pub same_dev : q.dev ≡ p.dev
    pub same_role : q.role ≡ p.role

  relay-Relayed :
      (e : Bool) (f : PanFrame) (p : Pan S)
      → 0 < length p.frames
      → Relayed f p (relay e (set_frame f p))
  unfolding relay
  relay-Relayed e f p some_frame = elim (Bool-cases (relays (set_frame f p))) [
    | inl on ↦
        rw (on, relay)
          (record {
            same_address = ap (λ (g : PanFrame). g.long_address) again;
            same_code = ap (λ (g : PanFrame). g.code) again;
            same_req = ap (λ (g : PanFrame). g.req) again;
            same_dev = refl;
            same_role = refl;
          })
    | inr off ↦
        rw (off, relay)
          (record {
            same_address = ap (λ (g : PanFrame). g.long_address) placed;
            same_code = ap (λ (g : PanFrame). g.code) placed;
            same_req = ap (λ (g : PanFrame). g.req) placed;
            same_dev = refl;
            same_role = refl;
          })
  ]
    where
      placed : frame (set_frame f p) ≡ f
      placed = frame-set_frame f p some_frame

      again : frame (set_frame (repeated (frame (set_frame f p))) (set_frame f p)) ≡ repeated f
      again =
          frame-set_frame (repeated (frame (set_frame f p))) (set_frame f p)
            (omega (arith, length-set p.frames (p.idx % length p.frames) f))
          ∙ ap repeated placed

  -- What the receive callback makes of a node's address, PAN and slot: it changes them only for a
  -- response that carries the node's own id, which assigns them, or, the slot alone, for a reset,
  -- which takes it from any node but a master.
  pub rx_complete_cb-Identity :
      (epoch : Option ℕ) (e : Bool) (p : Pan S)
      → 0 < length p.frames
      → Identity
          (received p.dev.frame_len p.dev.rxbuf (frame p))
          p.role
          p.dev
          (rx_complete_cb epoch e p).1.dev
  unfolding accept
  rx_complete_cb-Identity epoch e p some_frame = from (rx_complete_cb-Outcome epoch e p)
    where
      f : PanFrame
      f = received p.dev.frame_len p.dev.rxbuf (frame p)

      l : Relayed f p (taken e p)
      l = relay-Relayed e f p some_frame

      unchanged : {d : Dev} → d ≡ p.dev → Identity f p.role p.dev d
      unchanged h =
          kept (ap (λ (d : Dev). d.uid) h) (ap (λ (d : Dev). d.pan_id) h)
            (ap (λ (d : Dev). d.slot_id) h)

      coded :
          (r : Bool × Pan S) → CodeOutcome epoch e (taken e p) r → Identity f p.role p.dev r.1.dev
      coded _ (answers _ _) = unchanged (finish-dev _ ∙ handle_pan_request-dev e _ ∙ l.same_dev)
      coded _ (accepts code mine) = rw (finish-dev (accept epoch (taken e p))) (
          assigned (sym l.same_code ∙ (==_iff _ _).0 code)
            (sym l.same_address ∙ (==_iff _ _).0 mine ∙ ap (λ (d : Dev). d.euid) l.same_dev)
            (ap (λ (q : ReqResp). q.short_address) l.same_req)
            (ap (λ (q : ReqResp). q.pan_id) l.same_req)
            (ap (λ (q : ReqResp). q.slot_id) l.same_req))
      coded _ (clears code role) =
          lost (sym l.same_code ∙ (==_iff _ _).0 code)
            (λ master. absurd (cc (master, l.same_role, role, ==_refl role_master)))
            (ap (λ (d : Dev). d.uid) l.same_dev) (ap (λ (d : Dev). d.pan_id) l.same_dev) refl
      coded _ (ignores _) = unchanged l.same_dev

      from : {r : Bool × Pan S} → RxOutcome epoch e p r → Identity f p.role p.dev r.1.dev
      from (gives_up _) = kept refl refl refl
      from passes_on = kept refl refl refl
      from (takes r _ _ _ c) = coded r c
