-- ===== src/Tests.antt =====
-- Every theorem with conditions, applied at a concrete run.
mod Data
mod Core
mod Execution
mod Planning
mod Cycle
mod Validation
mod Worker
mod Main
mod Report
mod Llm
