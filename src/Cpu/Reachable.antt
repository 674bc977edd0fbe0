-- ===== src/Cpu/Reachable.antt =====
-- The states that superscalar/datapath/SuperScalarCPU.hpp can reach are well formed.
use cpu_cpp.Base.{
  ℕ, zero, suc, ◌+◌, ◌≤◌, ◌<◌, ◌≡◌, refl, sym, Bool, ◌||◌, arith, if_keeps, length, replicate,
  length-replicate, All,
}
use cpu_cpp.Rob.Allocate.{reset-IsValid}
use cpu_cpp.Issue.Queue
use cpu_cpp.Issue.Queue.{IssueQueue}
use cpu_cpp.Issue.Counting
use cpu_cpp.Issue.Counting.{live}
use cpu_cpp.Branch.Predictor
use cpu_cpp.Branch.Predictor.{BranchPredictionState}
use cpu_cpp.Branch.Saturation
use cpu_cpp.Decode.Instruction.{BusLogic}
use cpu_cpp.Execute.Branch.{BranchHardware}
use cpu_cpp.Cpu.State.{
  Sizes, Cpu, CycleStats, Fetched, Redirect, reset, write_register, write_memory,
}
use cpu_cpp.Cpu.Backend.{commit_stage, memory_stage, branch_stage, alu_stage}
use cpu_cpp.Cpu.Frontend.{Front}
use cpu_cpp.Cpu.Step.{front_if, active_cycle, step, cycle_once}
use cpu_cpp.Cpu.Parts.{IsValid, Kept, Kept-trans}
use cpu_cpp.Cpu.Kept.Backend.{
  commit_stage-Kept, memory_stage-Kept, branch_stage-Kept, alu_stage-Kept,
}
use cpu_cpp.Cpu.Kept.Frontend.{front_stage-Kept}

live-replicate : (n : ℕ) → live (replicate n Queue.blank) ≡ 0
live-replicate zero = refl
live-replicate (suc n) = live-replicate n

queue_reset : (q : IssueQueue) → Counting.IsValid (Queue.reset q)
unfolding Queue.reset
queue_reset q = record { counted = sym (live-replicate (length q.entries)) }

small_counters : (n : ℕ) → All (λ c. c ≤ 3) (replicate n 1)
small_counters zero = tt
small_counters (suc n) = (omega arith, small_counters n)

predictor_reset :
    (n : ℕ) → 0 < n → Saturation.IsValid n (Predictor.reset n BranchPredictionState.weak_not_taken)
unfolding Predictor.reset
predictor_reset n h = record {
  size_pos = h;
  sized = length-replicate n 1;
  btb_sized = length-replicate n Predictor.blank_entry;
  two_bits = small_counters n;
}

reset-IsValid_core :
    (sizes : Sizes) (cpu : Cpu)
    → 0 < sizes.rob_capacity
    → 0 < sizes.table_size
    → IsValid sizes (reset sizes cpu)
unfolding reset
reset-IsValid_core sizes cpu h k = record {
  rob_valid = (reset-IsValid sizes.rob_capacity h).0;
  queue_valid = queue_reset cpu.issue_queue;
  lsq_bounded = omega arith;
  stores_bounded = omega arith;
  predictor_valid = predictor_reset sizes.table_size k;
}

module _ (sizes : Sizes) (bus : BusLogic) (hardware : BranchHardware) where
  front_if-Kept :
      (b : Bool) (f : Fetched) (cpu : Cpu)
      → IsValid sizes cpu
      → Kept sizes cpu (front_if sizes bus hardware b f cpu).cpu
  unfolding front_if
  front_if-Kept b f cpu v =
      if_keeps (λ (r : Front). Kept sizes cpu r.cpu) b (record { valid = v; clock = refl })
        (front_stage-Kept sizes bus f cpu v)

  active_cycle-Kept :
      (c : ℕ) (f : Fetched) (cpu : Cpu)
      → IsValid sizes cpu
      → Kept sizes cpu (active_cycle sizes bus hardware c f cpu).2
  unfolding active_cycle
  active_cycle-Kept c f cpu v =
      let cpu1 = (commit_stage sizes cpu).1 in
      let k1 = commit_stage-Kept sizes cpu v in
      let cpu2 = (memory_stage sizes cpu1).1 in
      let k2 = memory_stage-Kept sizes cpu1 k1.valid in
      let (issued_branch, recovery, cpu3) = branch_stage sizes hardware cpu2 in
      let k3 = branch_stage-Kept sizes hardware cpu2 k2.valid in
      let cpu4 = (alu_stage sizes 2 cpu3).1 in
      let k4 = alu_stage-Kept sizes 2 cpu3 k3.valid in
      Kept-trans k1 (
        Kept-trans k2 (
          Kept-trans k3 (
            Kept-trans k4
              (front_if-Kept (recovery.active || cpu4.halt_dispatched) f cpu4 k4.valid))))

  -- A cycle keeps the core well formed and takes one tick.
  pub step-IsValid :
      (f : Fetched) (cpu : Cpu)
      → IsValid sizes cpu
      → IsValid sizes (cycle_once sizes bus hardware f cpu)
        × ((cycle_once sizes bus hardware f cpu).cycles ≡ cpu.cycles + 1)
  unfolding step
  step-IsValid f cpu v =
      let cpu' : Cpu = record cpu { cycles = cpu.cycles + 1 } in
      let v' : IsValid sizes cpu' = record {
        rob_valid = v.rob_valid;
        queue_valid = v.queue_valid;
        lsq_bounded = v.lsq_bounded;
        stores_bounded = v.stores_bounded;
        predictor_valid = v.predictor_valid;
      } in
      let k = active_cycle-Kept cpu.cycles f cpu' v' in
      if_keeps
        (λ (r : CycleStats × Redirect × Cpu). IsValid sizes r.2 × (r.2.cycles ≡ cpu.cycles + 1))
        cpu.halted (v', refl) (k.valid, k.clock)

  -- What the core's users can do to it: reset it, clock it with any fetched pair, and write a
  -- register or a word of the memory.
  pub data Reachable : Cpu → Type 0 where
    after_reset : (cpu : Cpu) → Reachable (reset sizes cpu)
    clocked :
        (f : Fetched) (cpu : Cpu) → Reachable cpu → Reachable (cycle_once sizes bus hardware f cpu)
    register_written : (r v : ℕ) (cpu : Cpu) → Reachable cpu → Reachable (write_register cpu r v)
    memory_written :
        (address v : ℕ) (cpu : Cpu) → Reachable cpu → Reachable (write_memory cpu address v)

  IsValid-from :
      0 < sizes.rob_capacity
      → 0 < sizes.table_size
      → {cpu : Cpu} → Reachable cpu
      → IsValid sizes cpu
  unfolding write_register write_memory
  IsValid-from h k (after_reset cpu) = reset-IsValid_core sizes cpu h k
  IsValid-from h k (clocked f cpu r) = (step-IsValid f cpu (IsValid-from h k r)).0
  IsValid-from h k (register_written i w cpu r) =
      let v = IsValid-from h k r in
      record {
        rob_valid = v.rob_valid;
        queue_valid = v.queue_valid;
        lsq_bounded = v.lsq_bounded;
        stores_bounded = v.stores_bounded;
        predictor_valid = v.predictor_valid;
      }
  IsValid-from h k (memory_written address w cpu r) =
      let v = IsValid-from h k r in
      record {
        rob_valid = v.rob_valid;
        queue_valid = v.queue_valid;
        lsq_bounded = v.lsq_bounded;
        stores_bounded = v.stores_bounded;
        predictor_valid = v.predictor_valid;
      }

  -- With room in the reorder buffer and a predictor of at least one counter, in each reachable
  -- state the reorder buffer is well formed, the issue queue's count is the number of its valid
  -- entries, the load/store queue and the store buffer are within their capacities, and the
  -- predictor's tables have their size and two-bit counters.
  pub reachable-IsValid :
      (cpu : Cpu)
      → 0 < sizes.rob_capacity
      → 0 < sizes.table_size
      → Reachable cpu
      → IsValid sizes cpu
  reachable-IsValid cpu h k r = IsValid-from h k r
