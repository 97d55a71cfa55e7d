-- ===== src/Validation/Manifest.antt =====
-- validation/manifest_checks.py: the manifest of a program against its intent and the dataset.
mod Defs
pub mod Sound
unfoldable pub use Defs.*
