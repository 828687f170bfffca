-- ===== src/Panmaster/Request/Leases.antt =====
-- No sequence of requests makes two nodes share a slot.
use uwb_core.Common.{
  ℕ, ◌≤◌, ◌<◌, ◌≡◌, refl, sym, ap, ◌∙◌, Bool, true, Option, List, [], ◌∷◌, arith, length,
  length-set, set, inl, inr, Option-cases,
}
use uwb_core.PanUtils.{ReqResp}
use uwb_core.Panmaster.Types.{NodeIdx, Master, Timeval, uptime_ms}
use uwb_core.Panmaster.Index.{entry, idx_find_node}
use uwb_core.Panmaster.Index.Apart.{
  Apart, Apart-set, Each, Each-set, DifferEuid, DifferAddr, DifferSlot, Yields-DifferSlot, Keeps,
}
use uwb_core.Panmaster.Index.Answer.{idx_find_node-Agrees}
use uwb_core.Panmaster.Index.Again.{Outcome-length}
use uwb_core.Panmaster.Index.Keep.{
  RoleFits, HasRole, idx_find_node-HasRole, idx_find_node-DifferEuid, idx_find_node-DifferAddr,
  idx_find_node-DifferSlot,
}
use uwb_core.Panmaster.Index.Own.{Owns, idx_find_node-Owns}
use uwb_core.Panmaster.Index.Write.{idx_find_node-Outcome}
use uwb_core.Panmaster.Request.{panrequest_cb}

-- The state of the index at a time, if each id asks for the one role that `role_of` gives.
pub record IsMaster (role_of : ℕ → ℕ) (now : ℕ) (m : Master) : Type 0 where
  pub small : length m.node_idx ≤ 256
  pub roles : Each (HasRole role_of) m.node_idx
  pub euids : Apart DifferEuid m.node_idx
  pub addrs : Apart DifferAddr m.node_idx
  pub slots : Apart (DifferSlot now) m.node_idx

-- A lease that runs later runs now, as long as the clock does not reach 2^31 ms.
Keeps-earlier :
    (now later : ℕ) (n : NodeIdx) → now ≤ later → later < 2147483648 → Keeps later n → Keeps now n
Keeps-earlier now later n le small (inl (inl z)) = inl (inl z)
Keeps-earlier now later n le small (inl (inr h)) = inl (inr (omega arith))
Keeps-earlier now later n le small (inr p) = inr p

pub IsMaster-later :
    (role_of : ℕ → ℕ) (now later : ℕ) (m : Master)
    → now ≤ later
    → later < 2147483648
    → IsMaster role_of now m
    → IsMaster role_of later m
IsMaster-later role_of now later m le small v = record {
  small = v.small;
  roles = v.roles;
  euids = v.euids;
  addrs = v.addrs;
  slots = λ i j lt ltj ne oa ob r d ka kb.
      v.slots i j lt ltj ne oa ob r d (Keeps-earlier now later (entry m.node_idx i) le small ka)
        (Keeps-earlier now later (entry m.node_idx j) le small kb);
}

module _ (role_of : ℕ → ℕ) (now : ℕ) (m : Master) (v : IsMaster role_of now m) where
  IsMaster-RoleFits : (euid : ℕ) → role_of euid < 256 → RoleFits euid (role_of euid) m.node_idx
  IsMaster-RoleFits euid lt = record {
    small = lt;
    on_record = λ i lti occ same. v.roles i lti occ ∙ ap role_of same;
  }

  -- the search for the node keeps the index
  find-IsMaster :
      (locked : Bool) (utc euid : ℕ)
      → role_of euid < 256
      → IsMaster role_of now (idx_find_node locked now utc euid (role_of euid) m).2
  find-IsMaster locked utc euid lt = record {
    small = omega (
      arith,
      v.small,
      Outcome-length v.small (idx_find_node-Outcome locked now utc euid (role_of euid) m),
    );
    roles = idx_find_node-HasRole role_of locked now utc euid m v.small lt v.roles;
    euids = idx_find_node-DifferEuid locked now utc euid (role_of euid) m v.small v.euids;
    addrs = idx_find_node-DifferAddr locked now utc euid (role_of euid) m v.small v.addrs;
    slots =
        idx_find_node-DifferSlot locked now utc euid (role_of euid) m v.small
          (IsMaster-RoleFits euid lt) v.slots;
  }

-- Giving the owner of a slot a lease keeps the index.
lease-IsMaster :
    (role_of : ℕ → ℕ) (now at ends : ℕ) (m m' : Master)
    → IsMaster role_of now m
    → at < length m.node_idx
    → Owns now m.node_idx at
    → m'.node_idx ≡ set m.node_idx at (record (entry m.node_idx at) { lease_ends = ends })
    → IsMaster role_of now m'
lease-IsMaster role_of now at ends m m' v lt owns w = record {
  small = rw w (omega (arith, v.small, length-set m.node_idx at e));
  roles = rw w (Each-set (HasRole role_of) m.node_idx at e lt (v.roles at lt) v.roles);
  euids = rw w (
      Apart-set DifferEuid m.node_idx at e lt
        (λ j ltj ne. (v.euids j at ltj lt ne, v.euids at j lt ltj (λ s. ne (sym s)))) v.euids);
  addrs = rw w (
      Apart-set DifferAddr m.node_idx at e lt
        (λ j ltj ne. (v.addrs j at ltj lt ne, v.addrs at j lt ltj (λ s. ne (sym s)))) v.addrs);
  slots = rw w (
      Apart-set (DifferSlot now) m.node_idx at e lt
        (λ j ltj ne. Yields-DifferSlot now (entry m.node_idx j) e (owns j ltj ne)) v.slots);
}
  where
    e : NodeIdx
    e = record (entry m.node_idx at) { lease_ends = ends }

-- A request keeps the index.
pub panrequest_cb-IsMaster :
    (role_of : ℕ → ℕ) (locked aliased : Bool) (tv : Timeval) (utc euid : ℕ)
    (request response : ReqResp) (m : Master)
    → role_of euid < 256
    → request.role ≡ role_of euid
    → IsMaster role_of (uptime_ms tv) m
    → IsMaster role_of
        (uptime_ms tv)
        (panrequest_cb locked aliased tv utc euid request response m).2
unfolding panrequest_cb
panrequest_cb-IsMaster role_of locked aliased tv utc euid request response m lt same v =
    elim (Option-cases found.1) [
      | inl e ↦ rw (e, panrequest_cb) kept
      | inr (k, e) ↦
          rw (e, panrequest_cb)
            (lease-IsMaster role_of now _ _ found.2 _ kept
              (idx_find_node-Agrees locked now utc euid request.role k m v.small e).inside
              (idx_find_node-Owns locked now utc euid request.role k m v.small fits v.slots e) refl)
    ]
  where
    now : ℕ
    now = uptime_ms tv

    found : ℕ × Option ℕ × Master
    found = idx_find_node locked now utc euid request.role m

    kept : IsMaster role_of now found.2
    kept = rw same (find-IsMaster role_of now m v locked utc euid lt)

    fits : RoleFits euid request.role m.node_idx
    fits = rw same (IsMaster-RoleFits role_of now m v euid lt)

-- A call of the callback, as `handle_pan_request` makes it: request and response are one frame.
pub record Call : Type 0 where
  pub locked : Bool
  pub tv : Timeval
  pub utc : ℕ
  pub euid : ℕ
  pub frame : ReqResp

unfoldable pub answer : Call → Master → Bool × ReqResp × Master
answer c m = panrequest_cb c.locked true c.tv c.utc c.euid c.frame c.frame m

unfoldable pub answers : List Call → Master → Master
answers [] m = m
answers (c ∷ cs) m = answers cs (answer c m).2

-- The calls come in the order of their times, before the clock reaches 2^31 ms, and each id asks
-- for its role.
abbrev pub InOrder : (ℕ → ℕ) → ℕ → List Call → Type 0
InOrder role_of now [] = Unit {0}
InOrder role_of now (c ∷ cs) =
    (now ≤ uptime_ms c.tv)
    × (uptime_ms c.tv < 2147483648)
    × (role_of c.euid < 256)
    × (c.frame.role ≡ role_of c.euid)
    × InOrder role_of (uptime_ms c.tv) cs

abbrev last_time : ℕ → List Call → ℕ
last_time now [] = now
last_time now (c ∷ cs) = last_time (uptime_ms c.tv) cs

-- After any such sequence of requests, ids and non-zero addresses are still in one entry each, and
-- no slot is used by two nodes of one role with different addresses of which both have it for good
-- or on a lease that runs.
pub answers-IsMaster :
    (role_of : ℕ → ℕ) (now : ℕ) (cs : List Call) (m : Master)
    → InOrder role_of now cs
    → IsMaster role_of now m
    → IsMaster role_of (last_time now cs) (answers cs m)
unfolding answers answer
answers-IsMaster role_of now [] m o v = v
answers-IsMaster role_of now (c ∷ cs) m (le, small, lt, same, rest) v =
    answers-IsMaster role_of (uptime_ms c.tv) cs (answer c m).2 rest (
      panrequest_cb-IsMaster role_of c.locked true c.tv c.utc c.euid c.frame c.frame m lt same
        (IsMaster-later role_of now (uptime_ms c.tv) m le small v))
