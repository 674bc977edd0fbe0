-- ===== src/Retire.antt =====
-- The commit stage of superscalar/core/commit.
pub mod ArchitecturalFile
pub mod Unit
pub mod Told
pub mod InOrder
