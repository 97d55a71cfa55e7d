-- ===== src/Orchestration/Planning.antt =====
-- The planner's part: verdicts on goals, the policies on intents, and the nodes that follow them.
pub mod Start
pub mod Verdicts
pub mod IntentPolicy
pub mod Decisions
pub mod Nodes
pub mod Idle
pub mod Outcome
pub mod Closing
pub mod Stalls
