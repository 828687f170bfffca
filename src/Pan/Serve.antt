-- ===== src/Pan/Serve.antt =====
-- The master that answers a request.
use mathlib.Core.Path.{subst}
use uwb_core.Common.{
  ℕ, ◌<◌, ◌≡◌, refl, sym, ap, ◌∙◌, Bool, true, false, [], ◌∷◌, ◌++◌, Option, some, length,
  if◌then◌else◌,
}
use uwb_core.PanUtils.{ReqResp}
use uwb_core.Pan.Frame.{PanFrame, array}
use uwb_core.Pan.Frame.RoundTrip.{Fits}
use uwb_core.Pan.Instance.{
  stop_rx, start_tx, set_wait4resp, put_postprocess, Pan, role_master, ask, frame, set_frame,
  write_frame,
}
use uwb_core.Pan.Receive.{
  pan_req, pan_resp, finish, answer_by, handle_pan_request, on_code, rx_complete_cb,
}
use uwb_core.Pan.Receive.Outcome.{handle_pan_request-set, relays-master, on_code-request}
use uwb_core.Pan.Identity.{frame-set_frame}
use uwb_core.Pan.Deliver.{heard, arrives, finish-busy}

-- the frame that answers
abbrev pub answer : PanFrame → ReqResp → PanFrame
answer f r = record f { code = pan_resp; req = r }

module _ {S : Type 0} where
  -- A master that listens answers a request: the callback's response goes out in the frame of the
  -- request, and the exchange is over.
  pub record Served (f : PanFrame) (r : ReqResp) (s : S) (m m' : Pan S) : Type 0 where
    pub new_store : m'.store ≡ s
    pub over : m'.sem ≡ 1
    pub sent :
        m'.commands
        ≡ ((m.commands ++ (stop_rx ∷ []))
            ++ (set_wait4resp false ∷ write_frame (answer f r) ++ (start_tx ∷ [])))
          ++ (if m.postprocess then put_postprocess ∷ [] else [])

  answer_by-answers :
      (e : Bool) (f : PanFrame) (p : Pan S) (cb : ℕ → ReqResp → S → Bool × ReqResp × S)
      → frame p ≡ f
      → (cb f.long_address f.req p.store).0 ≡ true
      → let (_, r, s) = cb f.long_address f.req p.store in
        answer_by cb e p
        ≡ record (ask
            (set_wait4resp false ∷ write_frame (answer f r) ++ (start_tx ∷ []))
            (record (set_frame (answer f r) p) { store = s })) { start_tx_error = e }
  unfolding answer_by
  answer_by-answers e f p cb is ok = rw (is, ok, answer_by) refl

  pub serves :
      (epoch : Option ℕ) (e : Bool) (f : PanFrame) (m : Pan S)
      → (cb : ℕ → ReqResp → S → Bool × ReqResp × S) → Fits f
      → f.code ≡ pan_req
      → 0 < length m.frames
      → m.sem ≡ 0
      → m.role ≡ role_master
      → m.request_cb ≡ some cb
      → (cb f.long_address f.req m.store).0 ≡ true
      → Served f
          (cb f.long_address f.req m.store).1
          (cb f.long_address f.req m.store).2
          m
          (rx_complete_cb epoch e (heard (array f) m)).1
  unfolding handle_pan_request on_code
  serves epoch e f m cb fits req some_frame busy master at ok =
      subst
        (λ (r : Bool × Pan S).
          Served f (cb f.long_address f.req m.store).1 (cb f.long_address f.req m.store).2 m r.1)
        (sym (
          arrives epoch e f m fits busy (relays-master p master)
          ∙ on_code-request epoch e p (ap (λ (g : PanFrame). g.code) placed ∙ req) master
          ∙ ap finish (
              handle_pan_request-set e (ask (stop_rx ∷ []) p) cb at
              ∙ answer_by-answers e f (ask (stop_rx ∷ []) p) cb placed ok)
          ∙ finish-busy _ busy))
        (record { new_store = refl; over = refl; sent = refl })
    where
      p : Pan S
      p = set_frame f (heard (array f) m)

      placed : frame p ≡ f
      placed = frame-set_frame f (heard (array f) m) some_frame
