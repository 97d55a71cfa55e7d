-- ===== src/Orchestration/Lookup.antt =====
-- orchestration/nodes/evidence_lookup.py.
pub mod Defs
pub mod Ranking
