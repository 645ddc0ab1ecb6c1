-- ===== src/Sema.antt =====
-- src/sema.rs and src/sema/: semantic analysis.
pub mod Constants
pub mod TypeResolution
pub mod CachedType
