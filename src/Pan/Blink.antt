-- ===== src/Pan/Blink.antt =====
-- The request of a node.
use uwb_core.Common.{
  ℕ, ◌%◌, ◌≡◌, refl, true, false, List, [], ◌∷◌, ◌++◌, Option, some, length, length-set,
}
use uwb_core.PanUtils.{Version}
use uwb_core.Pan.Frame.{PanFrame}
use uwb_core.Pan.Instance.{
  Command, start_tx, set_wait4resp, set_delay_start, set_rx_timeout, Pan, ask, set_frame,
  write_frame,
}
use uwb_core.Pan.Transmit.{pend, blink, request_frame}

module _ {S : Type 0} where
  -- A blink that starts sends the request and waits, with the semaphore taken.
  pub record Blinked (f : PanFrame) (n n' : Pan S) : Type 0 where
    pub started : n'.sem ≡ 0
    pub same_dev : n'.dev ≡ n.dev
    pub same_frames : length n'.frames ≡ length n.frames
    pub written :
        (before after : List Command) × (n'.commands
          ≡ n.commands ++ (before ++ write_frame f ++ after))

  pub blinks :
      (version : Option Version) (rpt_max role delay : ℕ) (n : Pan S)
      → n.sem ≡ 1
      → (n' : Pan S) × (blink version rpt_max false role delay n ≡ some n')
        × Blinked (request_frame version rpt_max role n) n n'
  unfolding blink pend
  blinks version rpt_max role delay n idle = (
    n',
    rw idle refl,
    record {
      started = refl;
      same_dev = refl;
      same_frames = length-set n.frames (n.idx % length n.frames) f;
      written = (
        set_delay_start delay ∷ [],
        set_wait4resp true ∷ set_rx_timeout n.rx_timeout_period ∷ start_tx ∷ [],
        refl,
      );
    },
  )
    where
      f : PanFrame
      f = request_frame version rpt_max role n

      n' : Pan S
      n' =
          record (ask
            ((set_delay_start delay ∷ [])
              ++ write_frame f
              ++ (set_wait4resp true ∷ set_rx_timeout n.rx_timeout_period ∷ start_tx ∷ []))
            (set_frame f (record n { sem = 0 }))) { start_tx_error = false }
