-- ===== src/Contracts.antt =====
-- contract_models/: the persistent contracts, a module for each file.
pub mod Base
pub mod Data
pub mod Analysis
pub mod Runtime
pub mod Planning
pub mod Agenda
pub mod Evidence
pub mod Review
