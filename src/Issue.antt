-- ===== src/Issue.antt =====
-- superscalar/core/issue and superscalar/core/dispatch/DispatchUnit.hpp: waiting instructions.
pub mod Queue
pub mod Unit
pub mod Dispatch
pub mod Counting
pub mod Wakeup
pub mod Ready
pub mod Progress
pub mod Accepted
pub mod Holds
pub mod Entered
pub mod Atomic
