-- ===== src/Report.antt =====
-- report_validation.py and nodes/reporting.py: the report of a run, its checks and its review.
pub mod Markers
pub mod Checks
pub mod Review
pub mod Writing
pub mod Sound
pub mod Adopted
