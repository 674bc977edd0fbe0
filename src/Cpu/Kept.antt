-- ===== src/Cpu/Kept.antt =====
-- Each stage of superscalar/datapath/SuperScalarCPU.hpp keeps the core well formed.
pub mod Backend
pub mod Frontend
