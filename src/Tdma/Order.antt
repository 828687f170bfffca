-- ===== src/Tdma/Order.antt =====
-- The order in which the slots of a superframe start.
use uwb_core.Common.{ℕ, sub32}
use uwb_core.Tdma.{Tdma}

-- the time since the epoch, on the 32-bit clock
abbrev pub since : ℕ → ℕ → ℕ
since epoch t = sub32 t epoch
