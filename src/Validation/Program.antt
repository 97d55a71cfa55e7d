-- ===== src/Validation/Program.antt =====
-- The syntax tree of a program, and the checks that walk it.
pub mod Tree
pub mod Lint
pub mod Clean
