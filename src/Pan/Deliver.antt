-- ===== src/Pan/Deliver.antt =====
-- The bytes of a frame at the receiver.
use mathlib.Core.List.{append-nil}
use uwb_core.Common.{
  ℕ, ◌≡◌, refl, ap, ◌∙◌, Bool, true, false, List, [], ◌∷◌, ◌++◌, Option, if◌then◌else◌, Bool-cases,
  inl, inr,
}
use uwb_core.Pan.Frame.{PanFrame, blink_tag, frame_size, array}
use uwb_core.Pan.Frame.RoundTrip.{Fits, received-array}
use uwb_core.Pan.Instance.{put_postprocess, Pan, frame, set_frame}
use uwb_core.Pan.Receive.{finish, relays, relay, on_code, rx_complete_cb}
use uwb_core.Pan.Receive.Outcome.{rx_complete_cb-takes, relay-quiet}

module _ {S : Type 0} where
  -- The radio delivers these bytes.
  abbrev pub heard : List ℕ → Pan S → Pan S
  heard bytes p = record p {
    dev = record p.dev { fctrl = blink_tag; frame_len = frame_size; rxbuf = bytes };
  }

  -- A frame that arrives in full, while an exchange runs, is the one that is looked at.
  pub arrives :
      (epoch : Option ℕ) (e : Bool) (f : PanFrame) (p : Pan S)
      → Fits f
      → p.sem ≡ 0
      → relays (set_frame f (heard (array f) p)) ≡ false
      → rx_complete_cb epoch e (heard (array f) p)
        ≡ on_code epoch e (set_frame f (heard (array f) p))
  arrives epoch e f p fits busy quiet =
      rx_complete_cb-takes epoch e (heard (array f) p) refl busy refl
      ∙ ap (λ (g : PanFrame). on_code epoch e (relay e (set_frame g (heard (array f) p))))
          (received-array f (frame p) fits)
      ∙ ap (λ (q : Pan S). on_code epoch e q)
          (relay-quiet e (set_frame f (heard (array f) p)) quiet)

  pub finish-busy :
      (p : Pan S)
      → p.sem ≡ 0
      → finish p ≡ (
        true,
        record p {
          sem = 1;
          commands = p.commands ++ (if p.postprocess then put_postprocess ∷ [] else []);
        },
      )
  unfolding finish
  finish-busy p busy = elim (Bool-cases p.postprocess) [
    | inl on ↦ rw (on, busy) refl
    | inr off ↦ rw (off, busy, append-nil p.commands) refl
  ]
