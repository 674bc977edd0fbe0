-- ===== src/Cpu/Step.antt =====
-- `step` and `run` of superscalar/datapath/SuperScalarCPU.hpp. What the fetch/decode register holds
-- in a cycle is an input, and the redirect that the cycle sends to the fetch an output.
use cpu_cpp.Base.{ℕ, zero, suc, ◌+◌, Bool, true, false, not, ◌&&◌, ◌||◌, ltb, if◌then◌else◌, length}
use cpu_cpp.Decode.Instruction.{BusLogic}
use cpu_cpp.Execute.Branch.{BranchHardware}
use cpu_cpp.Cpu.State.{Sizes, Cpu, CycleStats, Fetched, Redirect, no_redirect}
use cpu_cpp.Cpu.Backend.{commit_stage, memory_stage, branch_stage, alu_stage}
use cpu_cpp.Cpu.Frontend.{Front, front_stage, one_if}

module _ (sizes : Sizes) (bus : BusLogic) (hardware : BranchHardware) where
  -- Stages 4 and 5 with the test before them.
  unfoldable pub front_if : Bool → Fetched → Cpu → Front
  front_if blocked f cpu =
      let idle : Front = record {
        decoded = 0;
        dispatched = 0;
        redirect = no_redirect;
        cpu = cpu;
      } in
      if blocked then idle else front_stage sizes bus f cpu

  -- What a cycle of a running core does, after `cycles_++`.
  unfoldable pub active_cycle : ℕ → Fetched → Cpu → CycleStats × Redirect × Cpu
  unfolding front_if
  active_cycle cycle f cpu =
      let (events, cpu1) = commit_stage sizes cpu in
      let (mem_results, cpu2) = memory_stage sizes cpu1 in
      let (issued_branch, recovery, cpu3) = branch_stage sizes hardware cpu2 in
      let (issued_alu, cpu4) = alu_stage sizes 2 cpu3 in
      let front = front_if (recovery.active || cpu4.halt_dispatched) f cpu4 in
      (
        record {
          cycle = cycle;
          fetched = 0;
          decoded = front.decoded;
          renamed = 0;
          dispatched = front.dispatched;
          issued_alu = issued_alu;
          issued_branch = one_if issued_branch;
          issued_mem = length mem_results;
          retired = length events;
          branch_mispredicted = recovery.active;
          redirect_pc = recovery.redirect_pc;
          halted = cpu1.halted;
        },
        if recovery.active then recovery else front.redirect,
        front.cpu,
      )

  abbrev halted_stats : ℕ → CycleStats
  halted_stats cycle = record {
    cycle = cycle;
    fetched = 0;
    decoded = 0;
    renamed = 0;
    dispatched = 0;
    issued_alu = 0;
    issued_branch = 0;
    issued_mem = 0;
    retired = 0;
    branch_mispredicted = false;
    redirect_pc = 0;
    halted = true;
  }

  unfoldable pub step : Fetched → Cpu → CycleStats × Redirect × Cpu
  unfolding active_cycle
  step f cpu =
      let cpu' : Cpu = record cpu { cycles = cpu.cycles + 1 } in
      if cpu.halted
      then (halted_stats cpu.cycles, no_redirect, cpu')
      else active_cycle cpu.cycles f cpu'

  -- The state after a cycle.
  abbrev pub cycle_once : Fetched → Cpu → Cpu
  cycle_once f cpu = (step f cpu).2

  -- The loop of `run`, on fuel; `inputs` has the fetched pair of each cycle by its number.
  unfoldable pub run : ℕ → (ℕ → Fetched) → ℕ → Cpu → Cpu
  unfolding step
  run zero inputs max_cycles cpu = cpu
  run (suc fuel) inputs max_cycles cpu =
      let rest = run fuel inputs max_cycles (cycle_once (inputs cpu.cycles) cpu) in
      if not cpu.halted && ltb cpu.cycles max_cycles then rest else cpu
