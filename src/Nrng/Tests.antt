-- ===== src/Nrng/Tests.antt =====
-- A request to the nodes 0, 2, 3 and 5 of a cell, with a ring of four frames; 5 and 2 answer.
use uwb_core.Common.{ℕ, ◌+◌, ◌-◌, ◌*◌, ◌^◌, ◌≤◌, ◌≡◌, refl, false, some, none, List, [], ◌∷◌, arith}
use uwb_core.Nrng.{NrngFrame, Dev, RngConfig, Nrng, put, fctrl_range, ss_nrng}
use uwb_core.Nrng.Request.{prepare}
use uwb_core.Nrng.Receive.{Received, my_slot, response_frame, response_start}
use uwb_core.Nrng.Spacing.{response_start-Spaced}

abbrev blank : NrngFrame
blank = record {
  fctrl = fctrl_range;
  seq_num = 0;
  pan_id = 0xdeca;
  dst_address = 0;
  src_address = 0;
  code = 0;
  ptype = 0;
  cell_id = 0;
  slot_mask = 0;
  reception_timestamp = 0;
  transmission_timestamp = 0;
  slot_id = 0;
  request_timestamp = 0;
  response_timestamp = 0;
  carrier_integrator = 0;
  diag = [];
}

abbrev dev : ℕ → Dev
dev n = record {
  uid = 100 + n;
  my_short_address = 100 + n;
  cell_id = 7;
  slot_id = n;
  tx_antenna_delay = 16000;
}

abbrev request : NrngFrame
request = record blank {
  seq_num = 0;
  code = ss_nrng;
  src_address = 101;
  dst_address = 0xffff;
  cell_id = 7;
  slot_mask = 45;
}

abbrev idle : Nrng
idle = record {
  dev = dev 1;
  nframes = 4;
  nnodes = 0;
  slot_mask = 0;
  cell_id = 0;
  seq_num = 255;
  idx = 65535;
  sem = 0;
  delay = 0;
  delay_start_enabled = false;
  frames = λ _. blank;
  calls = [];
}

-- the instance after `prepare`
abbrev asking : Nrng
asking = record idle {
  nnodes = 4;
  idx = 3;
  seq_num = 0;
  cell_id = 7;
  slot_mask = 45;
  frames = put 3 request idle.frames;
}

asking_prepared : prepare 0xffff ss_nrng 45 7 idle ≡ asking
unfolding prepare
asking_prepared = refl

abbrev config : RngConfig
config = record { tx_holdoff_delay = 2000; rx_timeout_delay = 3; tx_guard_delay = 31 }

abbrev heard : NrngFrame → ℕ → Received
heard f time = record {
  fctrl = fctrl_range;
  frame_len = 20;
  frame = f;
  rxtimestamp = time;
  lde_error = false;
  txtime_lo32 = 5000;
  carrier_integrator = 9;
  rxdiag = none;
}

answer_in : ℕ → ℕ → Received
answer_in n slot =
    heard
      (response_frame (dev n) slot (response_start config 180 1000 slot) (heard request 1000) blank)
      900000

slot_of_2 : my_slot (dev 2) (heard request 1000) ≡ some 1
unfolding my_slot
slot_of_2 = refl

slot_of_5 : my_slot (dev 5) (heard request 1000) ≡ some 3
unfolding my_slot
slot_of_5 = refl

not_of_4 : my_slot (dev 4) (heard request 1000) ≡ none
unfolding my_slot
not_of_4 = refl

abbrev answers : List (ℕ × Received)
answers = (5, answer_in 5 3) ∷ (2, answer_in 2 1) ∷ []

response_start-Spaced_example :
    response_start config 180 1000 1 - 1000 + (config.tx_guard_delay + 180) * 2 ^ 16
    ≤ response_start config 180 1000 3 - 1000
response_start-Spaced_example =
    response_start-Spaced config 180 (dev 2) (dev 5) (heard request 1000) (heard request 1000) 1 3
      refl (omega arith) (omega arith) (omega arith) slot_of_2 slot_of_5 (omega arith) (omega arith)
      (omega arith)
