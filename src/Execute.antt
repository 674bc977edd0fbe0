-- ===== src/Execute.antt =====
-- The execution units of the superscalar core.
pub mod Alu
pub mod Branch
pub mod Memory
pub mod Pipeline
