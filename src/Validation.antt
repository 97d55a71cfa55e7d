-- ===== src/Validation.antt =====
-- validation/: the checks of intents and reviews against the state, and of programs and results.
pub mod References
pub mod Issues
pub mod Program
pub mod Manifest
pub mod Results
pub mod Numeric
