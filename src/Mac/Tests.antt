-- ===== src/Mac/Tests.antt =====
-- A device with the CCP and PAN services.
use uwb_core.Common.{ℕ, ◌+◌, ◌*◌, ◌^◌, ◌<◌, ◌≡◌, true, false}
use uwb_core.Mac.{Interface, dtu40, tx_end, post_tx_timeout}
use uwb_core.Mac.Window.{post_tx_timeout_lem}

abbrev ccp : Interface
ccp = record { id = 1; inst_ptr = 100; initialized = true }

abbrev pan : Interface
pan = record { id = 9; inst_ptr = 200; initialized = false }

-- A window over the wrap of the clock.
post_tx_timeout_lem_example :
    (rest : ℕ) × (rest < 65536)
    × (post_tx_timeout 1099511627000 1000 655360 < 2 ^ 24)
    × (dtu40 (tx_end 1099511627000 1000 + post_tx_timeout 1099511627000 1000 655360 * 65536 + rest)
        ≡ dtu40 655360)
post_tx_timeout_lem_example = post_tx_timeout_lem 1099511627000 1000 655360
