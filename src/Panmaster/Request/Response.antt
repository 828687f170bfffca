-- ===== src/Panmaster/Request/Response.antt =====
-- What a request gets: the node's address and slot, and a lease on them.
use uwb_core.Common.{
  ℕ, ◌+◌, ◌*◌, ◌≤◌, ◌<◌, ◌≡◌, refl, sym, ◌∙◌, Bool, true, Option, arith, length, length-set, set,
  get_or-set_self, inl, inr, Option-cases, if◌then◌else◌, ◌==◌, u32,
}
use mathlib.Core.Bool.{false≢true}
use uwb_core.PanUtils.{ReqResp}
use uwb_core.Panmaster.Types.{Node, NodeIdx, Master, Timeval, uptime_ms, zero_entry}
use uwb_core.Panmaster.Index.{entry, idx_find_node}
use uwb_core.Panmaster.Index.Apart.{Occupied}
use uwb_core.Panmaster.Index.Answer.{Agrees, buffer, idx_find_node-Agrees}
use uwb_core.Panmaster.Request.{panrequest_cb, default_lease_time}

-- The lease asked for, or the default where none is.
abbrev pub lease_of : ℕ → ℕ
lease_of t = if t == 0 then default_lease_time else t

-- The entry that a request leaves: in use by the id, with the slot and address of the response, and
-- a lease of so many seconds from now on.
pub record Granted (tv : Timeval) (euid seconds : ℕ) (r : ReqResp) (m : Master) (at : ℕ)
    : Type 0 where
  pub inside : at < length m.node_idx
  pub occupied : Occupied (entry m.node_idx at)
  pub same_id : (entry m.node_idx at).euid ≡ euid
  pub same_addr : (entry m.node_idx at).addr ≡ r.short_address
  pub same_slot : (entry m.node_idx at).slot_id ≡ r.slot_id
  pub leased : (entry m.node_idx at).lease_ends ≡ u32 (uptime_ms tv + seconds * 1000)
  pub same_pan : r.pan_id ≡ m.pan_id

lease-Granted :
    (tv : Timeval) (euid seconds : ℕ) (n : Node) (r : ReqResp) (m m' : Master)
    → Agrees euid m n
    → m'.node_idx
      ≡ set m.node_idx n.index
          (record (entry m.node_idx n.index) { lease_ends = u32 (uptime_ms tv + seconds * 1000) })
    → m'.pan_id ≡ r.pan_id
    → r.short_address ≡ n.addr
    → r.slot_id ≡ (entry m.node_idx n.index).slot_id
    → Granted tv euid seconds r m' n.index
lease-Granted tv euid seconds n r m m' a w pan addr slot = record {
  inside = rw w (omega (arith, length-set m.node_idx n.index e, a.inside));
  occupied = rw here a.occupied;
  same_id = rw here a.same_id;
  same_addr = rw here (a.same_addr ∙ sym addr);
  same_slot = rw here (sym slot);
  leased = rw here;
  same_pan = sym pan;
}
  where
    e : NodeIdx
    e = record (entry m.node_idx n.index) { lease_ends = u32 (uptime_ms tv + seconds * 1000) }

    here : entry m'.node_idx n.index ≡ e
    here = rw w (get_or-set_self m.node_idx n.index e zero_entry a.inside)

-- A request that is answered gets the address and the slot that the index has for its id, which has
-- an entry from then on, and the master's PAN id. Its lease is the one asked for, or the default
-- where none is; it runs from now on in milliseconds, modulo 2^32. Request and response are one
-- frame, as `handle_pan_request` passes them.
pub panrequest_cb-Granted :
    (locked : Bool) (tv : Timeval) (utc euid : ℕ) (frame : ReqResp) (m : Master)
    → length m.node_idx ≤ 256
    → (panrequest_cb locked true tv utc euid frame frame m).0 ≡ true
    → let (_, r, m') = panrequest_cb locked true tv utc euid frame frame m in
      (r.lease_time ≡ lease_of frame.lease_time) × ((at : ℕ) × Granted tv euid r.lease_time r m' at)
unfolding panrequest_cb
panrequest_cb-Granted locked tv utc euid frame m small ok = elim (Option-cases found.1) [
  | inl e ↦ absurd (false≢true (rw (e, panrequest_cb) at ok))
  | inr (k, e) ↦
      let a = idx_find_node-Agrees locked now utc euid frame.role k m small e in
      rw (e, panrequest_cb)
        (
          refl,
          (
            (buffer found.2 k).index,
            lease-Granted tv euid _ (buffer found.2 k) _ found.2 _ a refl refl refl refl,
          ),
        )
]
  where
    now : ℕ
    now = uptime_ms tv

    found : ℕ × Option ℕ × Master
    found = idx_find_node locked now utc euid frame.role m
