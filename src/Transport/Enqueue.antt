-- ===== src/Transport/Enqueue.antt =====
-- `uwb_transport_enqueue_tx` of lib/uwb_transport/src/uwb_transport.c.
use uwb_core.Common.{ℕ, Bool, true, false, ◌&&◌, List, [], ◌∷◌, ◌++◌, if◌then◌else◌, ltb, length}
use uwb_core.Pan.Frame.{bytes_of}
use uwb_core.Transport.{Transport, mtu_of}

-- DPL_EINVAL
abbrev pub einval : ℕ
einval = 2

-- `dpl_mbuf_extend` by the three words
unfoldable pub with_trailer : ℕ → ℕ → ℕ → List ℕ → List ℕ
unfolding bytes_of
with_trailer dst_addr tsp_code retries om =
    om ++ bytes_of 2 dst_addr ++ bytes_of 2 tsp_code ++ bytes_of 2 retries

module _ {S : Type 0} where
  -- The result, and whether the packet is freed; `extended` and `put` tell whether the buffer pool
  -- and the queue oblige.
  unfoldable pub enqueue_tx :
      Bool → Bool → ℕ → ℕ → ℕ → List ℕ → Transport S → ℕ × Bool × Transport S
  unfolding with_trailer
  enqueue_tx extended put dst_addr tsp_code retries om t =
      if ltb (mtu_of t.dev) (length om)
      then (einval, false, t)
      else if extended && put
      then (
        0,
        false,
        record t { tx_q = t.tx_q ++ (with_trailer dst_addr tsp_code retries om ∷ []) },
      )
      else (einval, true, t)
