-- ===== src/Pan/Tests.antt =====
-- The PAN exchange of lib/uwb_pan at work: a node with the id 0x5042 and a master with no node yet.
use uwb_core.Common.{
  ℕ, ◌+◌, ◌≤◌, ◌≡◌, refl, Bool, true, false, [], ◌∷◌, none, some, arith, find_idx?,
}
use uwb_core.PanUtils.{ReqResp, fw_ver}
use uwb_core.Panmaster.Types.{NodeIdx, Master, Timeval, zero_entry, zero_node, node_idx_default}
use uwb_core.Panmaster.Address.{first_free_short_addr, try_addrs, addr_used, candidate}
use uwb_core.Panmaster.Slot.{first_free_slot_id, slot_search, slot_taken, slot_lease_expired}
use uwb_core.Panmaster.Index.{
  idx_find_node, place, find_first_empty_nodes_to_save, find_euid, known_node, new_node,
}
use uwb_core.Panmaster.Request.{panrequest_cb, respond}
use uwb_core.Pan.Frame.{PanFrame, blink_tag, frame_size, array, received}
use uwb_core.Pan.Frame.RoundTrip.{Fits, received-array}
use uwb_core.Pan.Instance.{ask, start_rx, Dev, Pan, role_master, role_slave, zero_frame}
use uwb_core.Pan.Receive.{rx_complete_cb, reset_cb, rx_timeout_cb}
use uwb_core.Pan.Transmit.{pend, listen_start, blink, request_frame, with_version}
use uwb_core.Pan.Deliver.{heard}
use uwb_core.Pan.Serve.{answer}
use uwb_core.Pan.Identity.{Identity, rx_complete_cb-Identity}
use uwb_core.Pan.Join.{Join, master_cb, join}
use uwb_core.Pan.Steps.{
  System, called, started, Steps, here, next, listens, woken, was_reset, releases, timed_out,
}
use uwb_core.Pan.Steps.Exclusive.{Steps-sem}

abbrev free_entry : NodeIdx
free_entry = node_idx_default zero_entry

abbrev empty_master : Master
empty_master = record {
  node_idx = free_entry ∷ free_entry ∷ [];
  nodes_to_save = zero_node ∷ zero_node ∷ [];
  pan_id = 0x100;
}

abbrev device : ℕ → Dev
device id = record {
  fctrl = blink_tag;
  frame_len = 0;
  rxbuf = [];
  rxtimestamp = 0;
  uid = 0xffff;
  pan_id = 0xffff;
  slot_id = 0xffff;
  euid = id;
}

abbrev now : Timeval
now = record { tv_sec = 2; tv_usec = 0 }

abbrev node : Pan Master
node = record {
  sem = 1;
  valid = false;
  start_tx_error = false;
  lease_expired = false;
  postprocess = true;
  request_cb = none;
  role = role_slave;
  network_role = 2;
  lease_time = 60;
  rx_timeout_period = 800;
  idx = 1;
  frames = zero_frame ∷ zero_frame ∷ [];
  dev = device 0x5042;
  store = empty_master;
  commands = [];
}

abbrev listening_master : Pan Master
listening_master = record node {
  sem = 0;
  request_cb = some (master_cb false now 7);
  role = role_master;
  dev = device 0x1;
}

abbrev request : PanFrame
request = request_frame none 3 2 node

abbrev response : Bool × ReqResp × Master
response = master_cb false now 7 0x5042 request.req empty_master

response_lem : (response.0 ≡ true) × (response.1.short_address ≡ 0x5042) × (response.1.slot_id ≡ 0)
unfolding panrequest_cb respond idx_find_node place find_first_empty_nodes_to_save find_euid
    known_node new_node first_free_short_addr try_addrs addr_used candidate first_free_slot_id
    slot_search slot_taken slot_lease_expired with_version fw_ver find_idx?
response_lem = (refl, refl, refl)

request-Fits : Fits request
unfolding with_version
request-Fits = record {
  fctrl_fits = omega arith;
  seq_num_fits = omega arith;
  long_address_fits = omega arith;
  rpt_count_fits = omega arith;
  rpt_max_fits = omega arith;
  code_fits = omega arith;
  role_fits = omega arith;
  lease_time_fits = omega arith;
  pan_id_fits = omega arith;
  short_address_fits = omega arith;
  slot_id_fits = omega arith;
  padding_fits = omega arith;
}

response-Fits : Fits (answer request response.1)
unfolding panrequest_cb respond idx_find_node place find_first_empty_nodes_to_save find_euid
    known_node new_node first_free_short_addr try_addrs addr_used candidate first_free_slot_id
    slot_search slot_taken slot_lease_expired with_version fw_ver find_idx?
response-Fits = record {
  fctrl_fits = omega arith;
  seq_num_fits = omega arith;
  long_address_fits = omega arith;
  rpt_count_fits = omega arith;
  rpt_max_fits = omega arith;
  code_fits = omega arith;
  role_fits = omega arith;
  lease_time_fits = omega arith;
  pan_id_fits = omega arith;
  short_address_fits = omega arith;
  slot_id_fits = omega arith;
  padding_fits = omega arith;
}

received-array_example : received frame_size (array request) zero_frame ≡ request
received-array_example = received-array request zero_frame request-Fits

join_example :
    (n₁ : Pan Master) × (blink none 3 false 2 100 node ≡ some n₁)
    × Join none now request response.1 response.2 node n₁
        (rx_complete_cb none false (heard (array (answer request response.1)) n₁)).1
        listening_master
        (rx_complete_cb none false (heard (array request) listening_master)).1
join_example =
    join none none 3 2 100 node false false false now 7 listening_master refl (omega arith) refl
      refl refl (omega arith) (omega arith) request-Fits response-Fits response_lem.0

abbrev waiting_node : Pan Master
waiting_node = record (heard (array (answer request response.1)) node) { sem = 0 }

rx_complete_cb-Identity_example :
    Identity
      (received frame_size (array (answer request response.1)) zero_frame)
      role_slave
      waiting_node.dev
      (rx_complete_cb none false waiting_node).1.dev
rx_complete_cb-Identity_example = rx_complete_cb-Identity none false waiting_node (omega arith)

abbrev at_first : System Master
at_first = record { inst = node; waiting = 0; releasing = 0; between = 0 }

abbrev listening : Pan Master
listening = ask (start_rx ∷ []) (record node { sem = 0 })

listens_first : listen_start node ≡ some listening
unfolding listen_start pend
listens_first = refl

Steps-sem_example : (rx_timeout_cb listening).1.sem + 0 ≤ 1
unfolding rx_timeout_cb
Steps-sem_example =
    Steps-sem at_first (called (started at_first false true listening) (rx_timeout_cb listening).1)
      (next (next here (listens false true listening listens_first)) timed_out) (omega arith)

-- a callback between the pend and the release of a waking task: the semaphore counts two
two_free : (t : System Master) × Steps at_first t × (t.inst.sem ≡ 2)
unfolding rx_timeout_cb reset_cb pend
two_free = (
  _,
  next
      (next
        (next (next (next here (listens false true listening listens_first)) timed_out)
          (woken 0 listening refl refl))
        was_reset)
      (releases false 0 refl),
  refl,
)
