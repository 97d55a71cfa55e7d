-- ===== src/Orchestration.antt =====
-- orchestration/: the nodes of the two graphs, their policies and their routes.
pub mod Shared
pub mod FailurePolicy
pub mod Routes
pub mod Progress
pub mod ReviewEvidence
pub mod ReviewAgenda
pub mod Execution
pub mod Planning
pub mod Lookup
pub mod Cycle
pub mod Main
