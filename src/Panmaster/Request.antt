-- ===== src/Panmaster/Request.antt =====
-- The request callback that uwb_pan calls: `panrequest_cb` of panmaster.c.
pub mod Leases
pub mod Response
use uwb_core.Common.{
  ℕ, ◌+◌, ◌*◌, Bool, true, false, Option, none, some, ◌==◌, if◌then◌else◌, get_or, set, u32,
}
use uwb_core.PanUtils.{ReqResp, fw_ver}
use uwb_core.Panmaster.Types.{Node, NodeIdx, Master, Timeval, zero_node, uptime_ms}
use uwb_core.Panmaster.Index.{entry, idx_find_node}

-- PANMASTER_DEFAULT_LEASE_TIME
abbrev pub default_lease_time : ℕ
default_lease_time = 30

-- What the callback writes to the response, from the node and its slot.
unfoldable pub respond : ℕ → Node → ℕ → ReqResp → ReqResp
respond pan_id node slot response = record response {
  short_address = node.addr;
  slot_id = slot;
  lease_time = if response.lease_time == 0 then default_lease_time else response.lease_time;
  pan_id = pan_id;
  role = node.role;
}

-- `aliased` says that request and response are one buffer, as in `handle_pan_request`; the lease
-- is then read after its default is written. `tv` is the uptime, read once.
unfoldable pub panrequest_cb :
    Bool → Bool → Timeval → ℕ → ℕ → ReqResp → ReqResp → Master → Bool × ReqResp × Master
unfolding respond fw_ver
panrequest_cb locked aliased tv utc euid request response m =
    let (rc, results, m') = idx_find_node locked (uptime_ms tv) utc euid request.role m in
    elim results [
      | none ↦ (false, response, m')
      | some k ↦
          let node = record (get_or m'.nodes_to_save k zero_node) { fw_ver = fw_ver request } in
          let e = entry m'.node_idx node.index in
          let response' = respond m'.pan_id node e.slot_id response in
          let lease = if aliased then response'.lease_time else request.lease_time in
          (
            true,
            response',
            record m' {
              node_idx =
                  set m'.node_idx node.index
                    (record e { lease_ends = u32 (uptime_ms tv + lease * 1000) });
              nodes_to_save = set m'.nodes_to_save k node;
            },
          )
    ]
