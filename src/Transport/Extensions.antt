-- ===== src/Transport/Extensions.antt =====
-- The extensions of lib/uwb_transport/src/uwb_transport.c, and the packets handed to them.
use uwb_core.Common.{ℕ, true, false, List, [], ◌∷◌, Option, none, some, if◌then◌else◌, ◌==◌}
use uwb_core.Transport.{Extension, RxPacket, Transport}

module _ {S : Type 0} where
  unfoldable pub get_extension : ℕ → List (Extension S) → Option (Extension S)
  get_extension c [] = none
  get_extension c (x ∷ xs) = elim (x.tsp_code == c) [ true ↦ some x | false ↦ get_extension c xs ]

  unfoldable pub append_extension : Extension S → List (Extension S) → List (Extension S)
  append_extension e [] = e ∷ []
  append_extension e (x ∷ xs) = x ∷ append_extension e xs

  unfoldable pub remove_extension : ℕ → List (Extension S) → List (Extension S)
  remove_extension c [] = []
  remove_extension c (x ∷ xs) = elim (x.tsp_code == c) [
    | true ↦ xs
    | false ↦ x ∷ remove_extension c xs
  ]

  -- `extension_signal_tx`, on the application's state
  unfoldable pub signal_tx : List (Extension S) → S → S
  signal_tx [] s = s
  signal_tx (x ∷ xs) s = elim x.transmit_cb [ none ↦ signal_tx xs s | some f ↦ signal_tx xs (f s) ]

  -- one packet of the queue: to its extension, or freed
  unfoldable pub pass_up : List (Extension S) → RxPacket → S → S
  unfolding get_extension
  pass_up xs p s = elim (get_extension p.tsp_code xs) [
    | none ↦ s
    | some x ↦ x.receive_cb p.uid p.data_bytes s
  ]

  unfoldable pub pass_up_all : List (Extension S) → List RxPacket → S → S
  unfolding pass_up
  pass_up_all xs [] s = s
  pass_up_all xs (p ∷ ps) s = pass_up_all xs ps (pass_up xs p s)

  -- `uwb_transport_process_rx_queue`: an instance that is being freed loses the packet it took.
  unfoldable pub process_rx_queue : Transport S → Transport S
  unfolding pass_up_all
  process_rx_queue t = elim t.rx_q [
    | [] ↦ t
    | p ∷ ps ↦
        if t.has_init
        then record t { rx_q = []; app = pass_up_all t.extension_list t.rx_q t.app }
        else record t { rx_q = ps }
  ]
