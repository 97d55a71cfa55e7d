-- ===== src/Validation/Numeric.antt =====
-- validation/numeric.py: the numbers of a review are tied to the result.
mod Defs
pub mod Bound
unfoldable pub use Defs.*
