-- ===== src/Orchestration/Shared.antt =====
-- orchestration/nodes/_shared.py: the repair limits and the counter of equal errors in a row.
mod Defs
pub mod Streaks
unfoldable pub use Defs.*
