-- ===== src/Orchestration/ReviewEvidence.antt =====
-- orchestration/nodes/review_evidence.py: evidence from an accepted review, and its relations.
mod Defs
pub mod Recorded
pub mod Relations
unfoldable pub use Defs.*
