-- ===== src/Cpu/Frontend.antt =====
-- Decode, rename and dispatch in `step` of superscalar/datapath/SuperScalarCPU.hpp.
use cpu_cpp.Base.{
  ℕ, ◌+◌, Bool, true, false, not, ◌&&◌, Option, none, some, List, [], ◌∷◌, ◌==◌, if◌then◌else◌,
}
use cpu_cpp.Isa.{Opcode, is_branch}
use cpu_cpp.Rename.AliasTable
use cpu_cpp.Rename.AliasTable.{Checkpoint}
use cpu_cpp.Rename.Bundle.{DecodeBundle, RenameBundle}
use cpu_cpp.Rename.Renamer
use cpu_cpp.Rename.Renamer.{Renamer}
use cpu_cpp.Rob.Buffer
use cpu_cpp.Memory.StoreBuffer
use cpu_cpp.Memory.LoadStoreQueue
use cpu_cpp.Memory.LoadStoreQueue.{OpType}
use cpu_cpp.Issue.Queue
use cpu_cpp.Issue.Queue.{Entry, IssueQueue}
use cpu_cpp.Issue.Dispatch
use cpu_cpp.Issue.Dispatch.{Dispatcher}
use cpu_cpp.Branch.Predictor.{BranchPrediction}
use cpu_cpp.Branch.PredictionUnit
use cpu_cpp.Branch.PredictionUnit.{BranchPredictionResult}
use cpu_cpp.Decode.Instruction.{BusLogic}
use cpu_cpp.Decode.Unit
use cpu_cpp.Cpu.State.{Sizes, Cpu, Fetched, Redirect, no_redirect}
use cpu_cpp.Cpu.Backend.{or_else}

-- The search of `remove_from_iq`, from slot `i` on.
unfoldable pub find_index : ℕ → List Entry → ℕ → Option ℕ
find_index i [] rob_index = none
find_index i (e ∷ es) rob_index =
    let rest = find_index (i + 1) es rob_index in
    if e.valid && e.rob_index == rob_index then some i else rest

unfoldable pub remove_at : IssueQueue → Option ℕ → IssueQueue
remove_at q none = q
remove_at q (some i) = Queue.remove q i

unfoldable pub remove_from_iq : IssueQueue → ℕ → IssueQueue
unfolding remove_at find_index
remove_from_iq q rob_index = remove_at q (find_index 0 q.entries rob_index)

abbrev pub is_nop : Opcode → Bool
is_nop Opcode.nop = true
is_nop _ = false

-- What a dispatched instruction needs beside its entries: the memory queues, or, for HALT and NOP,
-- the completion on the spot.
unfoldable pub enter : Sizes → RenameBundle → ℕ → Cpu → Cpu
unfolding remove_from_iq
enter sizes bundle r_idx cpu =
    let done : Cpu = record cpu {
      rob = Buffer.complete sizes.rob_capacity cpu.rob r_idx 0;
      issue_queue = remove_from_iq cpu.issue_queue r_idx;
    } in
    if bundle.memory_read
    then record cpu {
      lsq =
          (LoadStoreQueue.allocate sizes.lsq_capacity cpu.lsq OpType.load r_idx bundle.pc
            bundle.physical_rd).1;
    }
    else (if bundle.memory_write
        then record cpu {
          lsq =
              (LoadStoreQueue.allocate sizes.lsq_capacity cpu.lsq OpType.store r_idx bundle.pc 0).1;
          store_buffer =
              (StoreBuffer.allocate sizes.store_buffer_capacity cpu.store_buffer r_idx bundle.pc).1;
        }
        else (if bundle.halt
            then record done { halt_dispatched = true }
            else (if is_nop bundle.opcode then done else cpu)))

abbrev pub dispatcher : Cpu → Dispatcher
dispatcher cpu = record { rob = cpu.rob; issue_queue = cpu.issue_queue; prf = cpu.prf }

-- After the dispatch unit's call: whether it took the instruction, and its state.
unfoldable pub after_dispatch : Sizes → RenameBundle → Cpu → Bool × Dispatcher → Bool × Cpu
unfolding enter
after_dispatch sizes bundle cpu (ok, d) =
    let cpu' : Cpu = record cpu { rob = d.rob; issue_queue = d.issue_queue; prf = d.prf } in
    (ok, if ok then enter sizes bundle cpu.rob.tail cpu' else cpu')

-- One lane: whether it counts as dispatched. The index of the entry is the buffer's tail.
unfoldable pub dispatch_lane : Sizes → RenameBundle → Cpu → Bool × Cpu
unfolding after_dispatch
dispatch_lane sizes bundle cpu =
    let (cp, rat) = AliasTable.checkpoint cpu.rat in
    let cpu' : Cpu = record cpu { rat = rat } in
    let saved : Option Checkpoint = if is_branch bundle.control_flow then some cp else none in
    if not bundle.valid
    then (false, cpu)
    else after_dispatch sizes bundle cpu'
        (Dispatch.dispatch sizes.rob_capacity (dispatcher cpu') bundle saved)

abbrev pub one_if : Bool → ℕ
one_if b = if b then 1 else 0

-- The two lanes in turn; the second one only while no HALT is in flight.
unfoldable pub dispatch_lanes : Sizes → RenameBundle → RenameBundle → Cpu → ℕ × Cpu
unfolding dispatch_lane
dispatch_lanes sizes ren_out0 ren_out1 cpu =
    let (ok0, cpu0) = dispatch_lane sizes ren_out0 cpu in
    let (ok1, cpu1) = dispatch_lane sizes ren_out1 cpu0 in
    if cpu0.halt_dispatched then (one_if ok0, cpu0) else (one_if ok0 + one_if ok1, cpu1)

abbrev pub renamer : Cpu → Renamer
renamer cpu = record {
  rat = cpu.rat;
  free_list = cpu.free_list;
  prf = some cpu.prf;
  stalled = cpu.stalled;
}

abbrev pub renamed : Cpu → Renamer → Cpu
renamed cpu u = record cpu {
  rat = u.rat;
  free_list = u.free_list;
  prf = or_else u.prf cpu.prf;
  stalled = u.stalled;
}

-- Rename and dispatch where `can_rename` holds.
unfoldable pub rename_stage : Sizes → DecodeBundle → DecodeBundle → Cpu → ℕ × Cpu
unfolding dispatch_lanes
rename_stage sizes ren_input0 ren_input1 cpu =
    let (ren_out0, ren_out1, u) = Renamer.rename_both (renamer cpu) ren_input0 ren_input1 in
    if Renamer.can_rename_both (renamer cpu) ren_input0 ren_input1
    then dispatch_lanes sizes ren_out0 ren_out1 (renamed cpu u)
    else (0, cpu)

-- The prediction's annotation of a branch.
abbrev pub annotate : DecodeBundle → BranchPrediction → DecodeBundle
annotate bundle p =
    if is_branch bundle.control_flow
    then record bundle {
      prediction = record { valid = true; predicted_taken = p.taken; predicted_target = p.target };
    }
    else bundle

pub record Front : Type 0 where
  pub decoded : ℕ
  pub dispatched : ℕ
  pub redirect : Redirect
  pub cpu : Cpu

-- From the prediction of the two decoded lanes on.
unfoldable pub predict_and_rename :
    Sizes → DecodeBundle → DecodeBundle → BranchPredictionResult → Cpu → Front
unfolding rename_stage
predict_and_rename sizes dec0 dec1 pred cpu =
    let lane1 = annotate dec1 pred.lane1 in
    let ren_input1 : DecodeBundle =
      if pred.redirect && pred.redirect_lane == 0 then record lane1 { valid = false } else lane1 in
    let (dispatched, cpu') = rename_stage sizes (annotate dec0 pred.lane0) ren_input1 cpu in
    record {
      decoded = one_if dec0.valid + one_if dec1.valid;
      dispatched = dispatched;
      redirect =
          if pred.redirect
          then record { active = true; redirect_pc = pred.redirect_pc }
          else no_redirect;
      cpu = cpu';
    }

-- Stages 4 and 5, on what the fetch/decode register holds.
unfoldable pub front_stage : Sizes → BusLogic → Fetched → Cpu → Front
unfolding predict_and_rename
front_stage sizes bus f cpu =
    let dec0 = Unit.decode bus f.pc0 f.instruction0 f.valid0 in
    let dec1 = Unit.decode bus f.pc1 f.instruction1 f.valid1 in
    predict_and_rename sizes dec0 dec1
      (PredictionUnit.evaluate sizes.table_size cpu.predictor dec0.pc dec0.valid dec0.control_flow
        dec1.pc dec1.valid dec1.control_flow)
      cpu
