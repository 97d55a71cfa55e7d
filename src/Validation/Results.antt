-- ===== src/Validation/Results.antt =====
-- validation/result_checks.py: the result of a program against its manifest.
mod Defs
pub mod Conformant
unfoldable pub use Defs.*
