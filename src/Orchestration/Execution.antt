-- ===== src/Orchestration/Execution.antt =====
-- The code execution subgraph: its nodes and their order.
pub mod Deps
pub mod Codegen
pub mod Running
pub mod Review
pub mod Commit
pub mod Graph
pub mod Ends
pub mod Accepted
pub mod Released
pub mod Agenda
pub mod Local
pub mod Delta
pub mod Numbers
pub mod Checked
