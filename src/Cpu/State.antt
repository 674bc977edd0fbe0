-- ===== src/Cpu/State.antt =====
-- The fields of superscalar/datapath/SuperScalarCPU.hpp that hold the core's state, with those of
-- its sub-units, and its reset.
use cpu_cpp.Base.{ℕ, zero, suc, ◌+◌, Bool, true, false, [], length}
use cpu_cpp.Rename.FreeList
use cpu_cpp.Rename.FreeList.{FreeList}
use cpu_cpp.Rename.AliasTable
use cpu_cpp.Rename.AliasTable.{AliasTable}
use cpu_cpp.Rename.RegisterFile
use cpu_cpp.Rename.RegisterFile.{RegisterFile}
use cpu_cpp.Rob.Buffer
use cpu_cpp.Rob.Buffer.{Buffer}
use cpu_cpp.Memory.StoreBuffer.{StoreBuffer}
use cpu_cpp.Memory.LoadStoreQueue.{LoadStoreQueue}
use cpu_cpp.Memory.DataMemory
use cpu_cpp.Memory.DataMemory.{DataMemory}
use cpu_cpp.Issue.Queue
use cpu_cpp.Issue.Queue.{IssueQueue}
use cpu_cpp.Retire.ArchitecturalFile
use cpu_cpp.Retire.ArchitecturalFile.{ArchitecturalFile}
use cpu_cpp.Branch.Predictor
use cpu_cpp.Branch.Predictor.{BranchPredictor, BranchPredictionState}
use cpu_cpp.Branch.Recovery.{Control, no_control}

-- The template's parameters that are not the length of an array in the state.
pub record Sizes : Type 0 where
  pub rob_capacity : ℕ
  pub lsq_capacity : ℕ
  pub store_buffer_capacity : ℕ
  pub table_size : ℕ

-- `retired_count` and `retired_halt` are the commit unit's fields, `control` the recovery unit's and
-- `stalled` the rename unit's. The counters are ℕ; the code's wrap at 2^64.
pub record Cpu : Type 0 where
  pub rob : Buffer
  pub issue_queue : IssueQueue
  pub prf : RegisterFile
  pub arf : ArchitecturalFile
  pub lsq : LoadStoreQueue
  pub store_buffer : StoreBuffer
  pub data_memory : DataMemory
  pub free_list : FreeList
  pub rat : AliasTable
  pub predictor : BranchPredictor
  pub retired_count : ℕ
  pub retired_halt : Bool
  pub control : Control
  pub stalled : Bool
  pub cycles : ℕ
  pub halted : Bool
  pub halt_dispatched : Bool
  pub branches_executed : ℕ
  pub branch_mispredictions : ℕ

pub record CycleStats : Type 0 where
  pub cycle : ℕ
  pub fetched : ℕ
  pub decoded : ℕ
  pub renamed : ℕ
  pub dispatched : ℕ
  pub issued_alu : ℕ
  pub issued_branch : ℕ
  pub issued_mem : ℕ
  pub retired : ℕ
  pub branch_mispredicted : Bool
  pub redirect_pc : ℕ
  pub halted : Bool

-- What the fetch/decode register puts on its output buses in a cycle.
pub record Fetched : Type 0 where
  pub pc0 : ℕ
  pub instruction0 : ℕ
  pub valid0 : Bool
  pub pc1 : ℕ
  pub instruction1 : ℕ
  pub valid1 : Bool

-- The pulse of `fetch_redirect_` and `fd_flush_`, with `fetch_redirect_pc_`.
pub record Redirect : Type 0 where
  pub active : Bool
  pub redirect_pc : ℕ

abbrev pub no_redirect : Redirect
no_redirect = record { active = false; redirect_pc = 0 }

-- The loop of `reset` that makes the first registers ready: `n` rounds from `i` on.
unfoldable pub clear_registers : ℕ → ℕ → RegisterFile → RegisterFile
clear_registers zero i prf = prf
clear_registers (suc n) i prf =
    clear_registers n (i + 1) (RegisterFile.write (RegisterFile.set_ready prf i true) i 0)

-- `reset`, without the wires. The lengths of the arrays are those of the state at hand.
unfoldable pub reset : Sizes → Cpu → Cpu
unfolding clear_registers
reset sizes cpu = record {
  rob = Buffer.reset sizes.rob_capacity;
  issue_queue = Queue.reset cpu.issue_queue;
  prf = clear_registers (length cpu.arf) 0 (RegisterFile.reset cpu.prf);
  arf = ArchitecturalFile.reset cpu.arf;
  lsq = [];
  store_buffer = [];
  data_memory = DataMemory.reset (length cpu.data_memory);
  free_list = FreeList.reset 64 16;
  rat = AliasTable.reset cpu.rat;
  predictor = Predictor.reset sizes.table_size BranchPredictionState.weak_not_taken;
  retired_count = 0;
  retired_halt = false;
  control = no_control;
  stalled = cpu.stalled;
  cycles = 0;
  halted = false;
  halt_dispatched = false;
  branches_executed = 0;
  branch_mispredictions = 0;
}

unfoldable pub write_register : Cpu → ℕ → ℕ → Cpu
write_register cpu r v =
    let p = AliasTable.lookup cpu.rat r in
    record cpu {
      arf = ArchitecturalFile.write cpu.arf r v;
      prf = RegisterFile.set_ready (RegisterFile.write cpu.prf p v) p true;
    }

unfoldable pub write_memory : Cpu → ℕ → ℕ → Cpu
write_memory cpu address v = record cpu {
  data_memory = DataMemory.write_word cpu.data_memory address v;
}
