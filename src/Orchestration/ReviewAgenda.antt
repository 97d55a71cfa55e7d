-- ===== src/Orchestration/ReviewAgenda.antt =====
-- orchestration/nodes/review_agenda.py: the agenda behind an accepted review.
mod Defs
mod Create
pub mod Conditions
pub mod Completed
pub mod Judged
pub mod Created
pub mod FollowUps
unfoldable pub use Defs.*
unfoldable pub use Create.*
