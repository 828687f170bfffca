-- ===== src/Pan/Join.antt =====
-- How a node joins: its blink, the answer of lib/panmaster, and what the node makes of it.
use uwb_core.Common.{
  ℕ, ◌<◌, ◌≤◌, ◌≡◌, refl, sym, ap, Bool, true, false, Option, none, some, length, arith,
}
use uwb_core.PanUtils.{Version, ReqResp}
use uwb_core.Pan.Frame.{PanFrame, array}
use uwb_core.Pan.Frame.RoundTrip.{Fits}
use uwb_core.Pan.Instance.{Dev, Pan, role_master}
use uwb_core.Pan.Receive.{rx_complete_cb}
use uwb_core.Panmaster.Types.{Timeval, Master}
use uwb_core.Panmaster.Request.{panrequest_cb}
use uwb_core.Panmaster.Request.Response.{Granted, panrequest_cb-Granted}
use uwb_core.Pan.Transmit.{blink, request_frame}
use uwb_core.Pan.Deliver.{heard}
use uwb_core.Pan.Serve.{answer, Served, serves}
use uwb_core.Pan.Take.{Joined, joins}
use uwb_core.Pan.Blink.{Blinked, blinks}

-- The request callback that panmaster.c registers, at a time and with the mutex free or not.
abbrev pub master_cb : Bool → Timeval → ℕ → ℕ → ReqResp → Master → Bool × ReqResp × Master
master_cb locked tv utc euid req m = panrequest_cb locked true tv utc euid req req m

-- The three steps of a node's way into the network, and where they end: the node's address and slot
-- are those that the master's index has for the node's id.
pub record Join {S : Type 0} (epoch : Option ℕ) (tv : Timeval) (f : PanFrame) (r : ReqResp)
    (s : Master) (n n₁ n₂ : Pan S) (m m' : Pan Master) : Type 0 where
  pub asked : Blinked f n n₁
  pub served : Served f r s m m'
  pub at : ℕ
  pub granted : Granted tv n.dev.euid r.lease_time r s at
  pub joined : Joined epoch r n₁ n₂

module _ {S : Type 0} where
  -- An idle node that blinks, where the radio delivers the request to a listening PAN master that
  -- grants it and the response back to the node, ends up with an address and slot that the master's
  -- index holds for its id, with a lease on them; node and master are idle again.
  pub join :
      (epoch : Option ℕ) (version : Option Version) (rpt_max role delay : ℕ) (n : Pan S)
      → (e e' : Bool) (locked : Bool) (tv : Timeval) (utc : ℕ) (m : Pan Master)
      → let f = request_frame version rpt_max role n in
        let (granted, r, s) = master_cb locked tv utc n.dev.euid f.req m.store in
        n.sem ≡ 1
        → 0 < length n.frames
        → m.sem ≡ 0
        → m.role ≡ role_master
        → m.request_cb ≡ some (master_cb locked tv utc)
        → 0 < length m.frames
        → length m.store.node_idx ≤ 256
        → Fits f
        → Fits (answer f r)
        → granted ≡ true
        → (n₁ : Pan S) × (blink version rpt_max false role delay n ≡ some n₁)
          × Join epoch tv f r s n n₁
              (rx_complete_cb epoch e' (heard (array (answer f r)) n₁)).1
              m
              (rx_complete_cb none e (heard (array f) m)).1
  join epoch version rpt_max role delay n e e' locked tv utc m idle some_n busy master at some_m
        small fits_f fits_g ok =
      (
        start.0,
        start.1,
        record {
          asked = b;
          served = serves none e f m (master_cb locked tv utc) fits_f refl some_m busy master at ok;
          at = lease.0;
          granted = lease.1;
          joined =
              joins epoch e' (answer f r) start.0 fits_g refl
                (ap (λ (d : Dev). d.euid) (sym b.same_dev)) (omega (arith, b.same_frames, some_n))
                b.started;
        },
      )
    where
      f : PanFrame
      f = request_frame version rpt_max role n

      r : ReqResp
      r = (master_cb locked tv utc n.dev.euid f.req m.store).1

      start : (n' : Pan S) × (blink version rpt_max false role delay n ≡ some n') × Blinked f n n'
      start = blinks version rpt_max role delay n idle

      b : Blinked f n start.0
      b = start.2

      lease :
          (i : ℕ) × Granted tv n.dev.euid r.lease_time r
            (master_cb locked tv utc n.dev.euid f.req m.store).2
            i
      lease = (panrequest_cb-Granted locked tv utc n.dev.euid f.req m.store small ok).1
