-- ===== src/Fetch.antt =====
-- The fetch of the superscalar core: the instruction cache and its refill, the fetch unit, the
-- instruction memory and the fetch/decode register.
pub mod InstructionCache
pub mod CacheController
pub mod LineFill
pub mod Refilled
pub mod ProgramCounter
pub mod Unit
pub mod DecodeReg
pub mod Stream
pub mod Latched
pub mod InstructionMemory
