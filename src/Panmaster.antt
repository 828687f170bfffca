-- ===== src/Panmaster.antt =====
-- lib/panmaster: the master's node index, the slots and addresses that it gives out, and the
-- requests that it answers.
pub mod Types
pub mod Address
pub mod Slot
pub mod Index
pub mod Request
pub mod Store
pub mod Nodes
pub mod Flash
pub mod Compress
mod Tests
mod StoreTests
mod CompressTests
