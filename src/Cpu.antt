-- ===== src/Cpu.antt =====
-- superscalar/datapath/SuperScalarCPU.hpp: the stages of the core in one cycle, and the run loop.
pub mod State
pub mod Backend
pub mod Frontend
pub mod Step
pub mod Parts
pub mod Kept
pub mod Reachable
pub mod Termination
pub mod Stuck
pub mod Bubble
pub mod FetchStage
pub mod FetchFollows
