-- ===== src/Examples.antt =====
-- The theorems at concrete states of the processor's parts.
mod RobRuns
mod MemoryRuns
mod RenameRuns
mod IssueRuns
mod BranchRuns
mod CoreRuns
mod ControlRuns
mod FetchRuns
