-- ===== src/Control.antt =====
-- The control units of the four processors: what each opcode drives.
pub mod SingleCycle
pub mod Pipelined
pub mod MultiCycle
pub mod Agree
