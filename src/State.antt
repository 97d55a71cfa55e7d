-- ===== src/State.antt =====
-- state.py: the single state of a run, its partial updates and its accessors.
mod Defs
mod Access
pub mod Updates
pub mod Conflicts
pub use Defs.*
unfoldable pub use Access.*
unfoldable pub use Conflicts.{unresolved_contradictions}
