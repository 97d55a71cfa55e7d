-- ===== src/Orchestration/Main.antt =====
-- orchestration/graph.py: the main graph, from the start of a run to its report.
pub mod Graph
pub mod Counts
pub mod Room
pub mod Within
pub mod Budget
