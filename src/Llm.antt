-- ===== src/Llm.antt =====
-- llm/: the decisions of the services of language models, behind the answers of the models.
pub mod Calls
pub mod Goals
pub mod Planner
pub mod Proposed
pub mod Closing
