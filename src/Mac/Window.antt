-- ===== src/Mac/Window.antt =====
-- Where the receive window ends.
use uwb_core.Common.{ℕ, ◌+◌, ◌*◌, ◌/◌, ◌%◌, ◌^◌, ◌<◌, ◌≡◌, ap, ◌∙◌, u32, arith}
use uwb_core.Mac.{dtu40, sub64, tx_end, post_tx_timeout}

tx_end-lt : (tx_ts tx_post_rmarker_len : ℕ) → tx_end tx_ts tx_post_rmarker_len < 1099511627776
unfolding tx_end
tx_end-lt tx_ts tx_post_rmarker_len = omega arith

-- The difference on the 64-bit clock, cut to 40 bits, leads from `a` to `r` on the 40-bit one.
difference : (r a : ℕ) → a < 1099511627776 → dtu40 (a + dtu40 (sub64 r a)) ≡ dtu40 r
difference r a lt = omega arith

-- The timeout is less than 2^24 µs, once round the 40-bit clock, and on that clock the window that it
-- gives ends at the asked time or less than one µs, 2^16 units, before it.
pub post_tx_timeout_lem :
    (tx_ts tx_post_rmarker_len rx_end : ℕ)
    → (rest : ℕ) × (rest < 65536)
      × (post_tx_timeout tx_ts tx_post_rmarker_len rx_end < 2 ^ 24)
      × (dtu40 (
            tx_end tx_ts tx_post_rmarker_len
            + post_tx_timeout tx_ts tx_post_rmarker_len rx_end * 65536
            + rest)
          ≡ dtu40 rx_end)
unfolding post_tx_timeout
post_tx_timeout_lem tx_ts tx_post_rmarker_len rx_end = (
  d % 65536,
  omega arith,
  omega arith,
  ap dtu40 split ∙ difference rx_end a (tx_end-lt tx_ts tx_post_rmarker_len),
)
  where
    a : ℕ
    a = tx_end tx_ts tx_post_rmarker_len

    d : ℕ
    d = dtu40 (sub64 rx_end a)

    split : (a + u32 (d / 65536) * 65536) + d % 65536 ≡ a + d
    split = omega arith
