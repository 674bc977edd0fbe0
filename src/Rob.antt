-- ===== src/Rob.antt =====
-- The reorder buffer: superscalar/core/dispatch/ROBEntry.hpp and ReOrderBuffer.hpp.
pub mod Entry
pub mod Buffer
pub mod Contents
pub mod Queue
pub mod Places
pub mod Allocate
pub mod Complete
pub mod Commit
pub mod Sweep
pub mod Squash
pub mod Trace
