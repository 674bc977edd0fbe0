-- ===== src/Cpu/Backend.antt =====
-- Commit and execution in `step` of superscalar/datapath/SuperScalarCPU.hpp.
use cpu_cpp.Base.{
  ℕ, zero, suc, ◌+◌, Bool, true, false, not, ◌&&◌, Option, none, some, List, [], ◌∷◌, if◌then◌else◌,
}
use cpu_cpp.Isa.{is_branch}
use cpu_cpp.Rename.RegisterFile
use cpu_cpp.Rob.Buffer
use cpu_cpp.Memory.StoreBuffer
use cpu_cpp.Memory.StoreBuffer.{StoreBuffer}
use cpu_cpp.Memory.LoadStoreQueue
use cpu_cpp.Memory.DataMemory
use cpu_cpp.Memory.DataMemory.{DataMemory}
use cpu_cpp.Issue.Queue
use cpu_cpp.Issue.Queue.{Entry}
use cpu_cpp.Retire.Unit
use cpu_cpp.Retire.Unit.{CommitEvent, Committer}
use cpu_cpp.Branch.Predictor
use cpu_cpp.Branch.Recovery
use cpu_cpp.Branch.Recovery.{BranchResult, Recoverer}
use cpu_cpp.Execute.Alu
use cpu_cpp.Execute.Branch
use cpu_cpp.Execute.Branch.{BranchHardware}
use cpu_cpp.Execute.Memory
use cpu_cpp.Execute.Memory.{MemoryResult, MemoryUnit}
use cpu_cpp.Cpu.State.{Sizes, Cpu, Redirect, no_redirect}

abbrev pub or_else {ℓ} : {A : Type ℓ} → Option A → A → A
or_else none d = d
or_else (some a) d = a

-- What `commit_unit_.step` works on, and the state after it.
abbrev pub committer : Cpu → Committer
committer cpu = record {
  rob = cpu.rob;
  prf = cpu.prf;
  arf = cpu.arf;
  free_list = cpu.free_list;
  rat = cpu.rat;
  store_buffer = some cpu.store_buffer;
  committed_instruction_count = cpu.retired_count;
  halted = cpu.retired_halt;
}

abbrev pub committed : Cpu → Committer → Cpu
committed cpu u = record cpu {
  rob = u.rob;
  prf = u.prf;
  arf = u.arf;
  free_list = u.free_list;
  rat = u.rat;
  store_buffer = or_else u.store_buffer cpu.store_buffer;
  retired_count = u.committed_instruction_count;
  retired_halt = u.halted;
}

-- The write of a store that has left the buffer.
abbrev drain : Option StoreBuffer.Entry → DataMemory → DataMemory
drain none memory = memory
drain (some e) memory = (DataMemory.write memory e.address e.data_word).1

-- The body of the loop over the events.
unfoldable pub retire_event : Cpu → CommitEvent → Cpu
retire_event cpu ev =
    let (popped, rest) = StoreBuffer.pop_committed cpu.store_buffer in
    record cpu {
      store_buffer = if ev.store then rest else cpu.store_buffer;
      data_memory = if ev.store then drain popped cpu.data_memory else cpu.data_memory;
      lsq = (LoadStoreQueue.remove cpu.lsq ev.rob_index).1;
      halted = if ev.halt then true else cpu.halted;
    }

unfoldable pub retire_events : List CommitEvent → Cpu → Cpu
unfolding retire_event
retire_events [] cpu = cpu
retire_events (ev ∷ evs) cpu = retire_events evs (retire_event cpu ev)

-- `CommitUnit(2)`
unfoldable pub commit_stage : Sizes → Cpu → List CommitEvent × Cpu
unfolding retire_events
commit_stage sizes cpu =
    let (events, u) = Unit.step sizes.rob_capacity 2 (committer cpu) in
    (events, retire_events events (committed cpu u))

abbrev pub memory_unit : Cpu → MemoryUnit
memory_unit cpu = record {
  rob = cpu.rob;
  issue_queue = cpu.issue_queue;
  prf = cpu.prf;
  lsq = cpu.lsq;
  store_buffer = cpu.store_buffer;
  data_memory = cpu.data_memory;
}

unfoldable pub memory_stage : Sizes → Cpu → List MemoryResult × Cpu
memory_stage sizes cpu =
    let (results, u) = Memory.execute sizes.rob_capacity (memory_unit cpu) in
    (
      results,
      record cpu {
        rob = u.rob;
        issue_queue = u.issue_queue;
        prf = u.prf;
        lsq = u.lsq;
        store_buffer = u.store_buffer;
        data_memory = u.data_memory;
      },
    )

abbrev pub is_ready_branch : Entry → Bool
is_ready_branch e =
    e.valid && not e.issued && is_branch e.control_flow && e.rs1_ready && e.rs2_ready

-- The search for a branch, from slot `i` on.
unfoldable pub select_branch : ℕ → List Entry → Option (ℕ × Entry)
select_branch i [] = none
select_branch i (e ∷ es) =
    let rest = select_branch (i + 1) es in if is_ready_branch e then some (i, e) else rest

abbrev pub recoverer : Cpu → Recoverer
recoverer cpu = record {
  control = cpu.control;
  rob = cpu.rob;
  rat = cpu.rat;
  free_list = cpu.free_list;
  issue_queue = cpu.issue_queue;
}

-- The branch of the misprediction: recovery, the second squash, and the queues of the memory.
unfoldable pub mispredict : Sizes → BranchResult → Cpu → Cpu
mispredict sizes result cpu =
    let u = (Recovery.recover sizes.rob_capacity (recoverer cpu) result).1 in
    let (_, squashed_indices, rob) =
      Buffer.squash_younger_than sizes.rob_capacity u.rob result.rob_index in
    record cpu {
      branch_mispredictions = cpu.branch_mispredictions + 1;
      halt_dispatched = false;
      control = u.control;
      rob = rob;
      rat = u.rat;
      free_list = u.free_list;
      issue_queue = u.issue_queue;
      lsq = LoadStoreQueue.squash cpu.lsq squashed_indices;
      store_buffer = StoreBuffer.squash cpu.store_buffer squashed_indices;
    }

-- The updates for each resolved branch.
abbrev pub note_branch : Sizes → BranchResult → ℕ → Cpu → Cpu
note_branch sizes result rob_index cpu = record cpu {
  branches_executed = cpu.branches_executed + 1;
  predictor =
      Predictor.update sizes.table_size cpu.predictor result.pc result.taken result.target_pc;
  rob = Buffer.complete sizes.rob_capacity cpu.rob rob_index result.target_pc;
}

-- What the branch unit has resolved takes effect.
unfoldable pub resolve_branch : Sizes → BranchResult → ℕ → Cpu → Redirect × Cpu
unfolding mispredict
resolve_branch sizes result rob_index cpu =
    let cpu' = note_branch sizes result rob_index cpu in
    if result.mispredicted
    then (record { active = true; redirect_pc = result.redirect_pc }, mispredict sizes result cpu')
    else (no_redirect, cpu')

-- The selected slot and its entry, whether a branch was issued, the redirect and the state.
unfoldable pub branch_at : Sizes → BranchHardware → Cpu → Option (ℕ × Entry) → Bool × Redirect × Cpu
unfolding resolve_branch
branch_at sizes hardware cpu none = (false, no_redirect, cpu)
branch_at sizes hardware cpu (some (i, e)) =
    let result = Branch.evaluate_entry hardware e e.predicted_taken e.predicted_target in
    let (redirect, cpu') =
      resolve_branch sizes result e.rob_index
        (record cpu { issue_queue = Queue.remove cpu.issue_queue i }) in
    (true, redirect, cpu')

unfoldable pub branch_stage : Sizes → BranchHardware → Cpu → Bool × Redirect × Cpu
unfolding branch_at select_branch
branch_stage sizes hardware cpu =
    branch_at sizes hardware cpu (select_branch 0 cpu.issue_queue.entries)

-- One lane of the integer execution, from the selected entry on.
unfoldable pub execute_alu : Sizes → ℕ → Entry → Cpu → Cpu
execute_alu sizes i e cpu =
    let alu_res = Alu.alu_result e.alu_operation (Alu.operand_a e) (Alu.operand_b e) in
    let q = Queue.remove cpu.issue_queue i in
    record cpu {
      prf = if e.register_write then RegisterFile.write cpu.prf e.physical_rd alu_res else cpu.prf;
      issue_queue = if e.register_write then Queue.wakeup q e.physical_rd alu_res else q;
      rob = Buffer.complete sizes.rob_capacity cpu.rob e.rob_index alu_res;
    }

unfoldable pub alu_at : Sizes → (Cpu → ℕ × Cpu) → Cpu → Option (ℕ × Entry) → ℕ × Cpu
unfolding execute_alu
alu_at sizes later cpu none = (0, cpu)
alu_at sizes later cpu (some (i, e)) =
    let (issued, cpu') = later (execute_alu sizes i e cpu) in (issued + 1, cpu')

-- `n` lanes: how many issued, and the state.
unfoldable pub alu_stage : Sizes → ℕ → Cpu → ℕ × Cpu
unfolding alu_at
alu_stage sizes zero cpu = (0, cpu)
alu_stage sizes (suc n) cpu =
    alu_at sizes (alu_stage sizes n) cpu (Alu.select_ready_alu_entry 0 cpu.issue_queue.entries)
