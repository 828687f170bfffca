-- ===== src/Transport/Sender/Window.antt =====
-- When `uwb_transport_dequeue_tx` takes a frame to fit its window.
use uwb_core.Common.{ℕ, ◌*◌}
use uwb_core.Transport.{period_end_guard}

-- the end of the guard, 2000 units of 2^16 before the end of the window
abbrev pub guard : ℕ
guard = period_end_guard * 65536
