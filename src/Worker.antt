-- ===== src/Worker.antt =====
-- worker/: the compute worker's store of executions, and the handlers on it.
pub mod Store
pub mod Contract
pub mod Lease
pub mod Race
pub mod App
pub mod Replies
