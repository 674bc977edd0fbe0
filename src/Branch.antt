-- ===== src/Branch.antt =====
-- Branch prediction and recovery of superscalar/core/branch.
pub mod Predictor
pub mod PredictionUnit
pub mod Recovery
pub mod Saturation
pub mod Restored
