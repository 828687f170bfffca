-- ===== src/Pan/Take.antt =====
-- The node that takes its response.
use mathlib.Core.Path.{subst}
use uwb_core.Common.{
  ℕ, ◌<◌, ◌≡◌, refl, sym, ap, ◌∙◌, Bool, true, false, [], ◌∷◌, ◌++◌, Option, length, if◌then◌else◌,
  ltb, ◌/◌,
}
use uwb_core.PanUtils.{ReqResp}
use uwb_core.Pan.Frame.{PanFrame, array}
use uwb_core.Pan.Frame.RoundTrip.{Fits}
use uwb_core.Pan.Instance.{put_postprocess, stop_lease, start_lease_ms, Pan, frame, set_frame}
use uwb_core.Pan.Receive.{pan_resp, lease_us, accept, rx_complete_cb}
use uwb_core.Pan.Receive.Outcome.{relays-mine, on_code-response}
use uwb_core.Pan.Identity.{frame-set_frame}
use uwb_core.Pan.Deliver.{heard, arrives, finish-busy}

module _ {S : Type 0} where
  -- A node that waits for its response takes what the response gives.
  pub record Joined (epoch : Option ℕ) (r : ReqResp) (n n' : Pan S) : Type 0 where
    pub same_uid : n'.dev.uid ≡ r.short_address
    pub same_pan : n'.dev.pan_id ≡ r.pan_id
    pub same_slot : n'.dev.slot_id ≡ r.slot_id
    pub is_valid : n'.valid ≡ true
    pub not_expired : n'.lease_expired ≡ false
    pub exchange_over : n'.sem ≡ 1
    pub timed :
        n'.commands
        ≡ (n.commands
            ++ (if ltb 0 r.lease_time
                then stop_lease
                  ∷ start_lease_ms (lease_us epoch n.dev.rxtimestamp r.lease_time / 1000)
                  ∷ []
                else stop_lease ∷ []))
          ++ (if n.postprocess then put_postprocess ∷ [] else [])

  pub joins :
      (epoch : Option ℕ) (e : Bool) (g : PanFrame) (n : Pan S)
      → Fits g
      → g.code ≡ pan_resp
      → g.long_address ≡ n.dev.euid
      → 0 < length n.frames
      → n.sem ≡ 0
      → Joined epoch g.req n (rx_complete_cb epoch e (heard (array g) n)).1
  unfolding accept
  joins epoch e g n fits code mine some_frame busy =
      subst (λ (r : Bool × Pan S). Joined epoch g.req n r.1)
        (sym (
          arrives epoch e g n fits busy (relays-mine p here)
          ∙ on_code-response epoch e p (ap (λ (f : PanFrame). f.code) placed ∙ code) here
          ∙ finish-busy (accept epoch p) busy))
        (rw placed (record {
          same_uid = refl;
          same_pan = refl;
          same_slot = refl;
          is_valid = refl;
          not_expired = refl;
          exchange_over = refl;
          timed = refl;
        }))
    where
      p : Pan S
      p = set_frame g (heard (array g) n)

      placed : frame p ≡ g
      placed = frame-set_frame g (heard (array g) n) some_frame

      here : (frame p).long_address ≡ p.dev.euid
      here = ap (λ (f : PanFrame). f.long_address) placed ∙ mine
