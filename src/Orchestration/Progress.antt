-- ===== src/Orchestration/Progress.antt =====
-- orchestration/nodes/progress.py: whether a run goes on, and the repair of the agenda.
mod Defs
pub mod Repair
pub mod Stops
unfoldable pub use Defs.*
