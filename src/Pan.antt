-- ===== src/Pan.antt =====
-- lib/uwb_pan and lib/pan_utils: the PAN exchange between a master and its nodes.
pub mod Frame
pub mod Instance
pub mod Receive
pub mod Transmit
pub mod Steps
pub mod Identity
pub mod Deliver
pub mod Serve
pub mod Take
pub mod Blink
pub mod Join
pub mod Slots
mod Tests
