-- ===== src/Cpu/Kept/Frontend.antt =====
-- Rename and dispatch keep the core well formed.
use cpu_cpp.Base.{
  ℕ, refl, Bool, false, not, ◌&&◌, Option, none, some, ◌==◌, if◌then◌else◌, if_keeps,
}
use cpu_cpp.Rename.AliasTable
use cpu_cpp.Rename.AliasTable.{Checkpoint}
use cpu_cpp.Rename.Bundle.{DecodeBundle, RenameBundle}
use cpu_cpp.Rename.Renamer
use cpu_cpp.Rob.Complete.{complete-IsValid}
use cpu_cpp.Memory.StoreBuffer.Bounded
use cpu_cpp.Memory.LoadStoreQueue.{OpType}
use cpu_cpp.Memory.LoadStoreQueue.Bounded as LoadBounded
use cpu_cpp.Issue.Queue.{IssueQueue}
use cpu_cpp.Issue.Counting
use cpu_cpp.Issue.Counting.{remove_counts}
use cpu_cpp.Issue.Dispatch
use cpu_cpp.Issue.Dispatch.{Dispatcher}
use cpu_cpp.Branch.PredictionUnit.{BranchPredictionResult}
use cpu_cpp.Branch.PredictionUnit
use cpu_cpp.Decode.Instruction.{BusLogic}
use cpu_cpp.Decode.Unit
use cpu_cpp.Isa.{is_branch}
use cpu_cpp.Cpu.State.{Sizes, Cpu, Fetched}
use cpu_cpp.Cpu.Frontend.{
  find_index, remove_at, remove_from_iq, is_nop, enter, dispatcher, after_dispatch, dispatch_lane,
  dispatch_lanes, renamer, renamed, rename_stage, annotate, predict_and_rename, front_stage,
}
use cpu_cpp.Cpu.Parts.{IsValid, Kept, Kept-trans, Dispatchable, dispatch-Dispatchable}

remove_at-IsValid :
    (q : IssueQueue) (o : Option ℕ) → Counting.IsValid q → Counting.IsValid (remove_at q o)
unfolding remove_at
remove_at-IsValid q none v = v
remove_at-IsValid q (some i) v = (remove_counts q i v).0

remove_from_iq-IsValid :
    (q : IssueQueue) (i : ℕ) → Counting.IsValid q → Counting.IsValid (remove_from_iq q i)
unfolding remove_from_iq
remove_from_iq-IsValid q i v = remove_at-IsValid q (find_index 0 q.entries i) v

module _ (sizes : Sizes) where
  enter-Kept :
      (bundle : RenameBundle) (i : ℕ) (cpu : Cpu)
      → IsValid sizes cpu
      → Kept sizes cpu (enter sizes bundle i cpu)
  unfolding enter
  enter-Kept bundle i cpu v =
      let rob = complete-IsValid sizes.rob_capacity cpu.rob i 0 v.rob_valid in
      let q = remove_from_iq-IsValid cpu.issue_queue i v.queue_valid in
      if_keeps (Kept sizes cpu) bundle.memory_read
        (record {
          valid = record {
            rob_valid = v.rob_valid;
            queue_valid = v.queue_valid;
            lsq_bounded =
                LoadBounded.length-allocate sizes.lsq_capacity cpu.lsq OpType.load i bundle.pc
                  bundle.physical_rd v.lsq_bounded;
            stores_bounded = v.stores_bounded;
            predictor_valid = v.predictor_valid;
          };
          clock = refl;
        })
        (if_keeps (Kept sizes cpu) bundle.memory_write
          (record {
            valid = record {
              rob_valid = v.rob_valid;
              queue_valid = v.queue_valid;
              lsq_bounded =
                  LoadBounded.length-allocate sizes.lsq_capacity cpu.lsq OpType.store i bundle.pc 0
                    v.lsq_bounded;
              stores_bounded =
                  Bounded.length-allocate sizes.store_buffer_capacity cpu.store_buffer i bundle.pc
                    v.stores_bounded;
              predictor_valid = v.predictor_valid;
            };
            clock = refl;
          })
          (if_keeps (Kept sizes cpu) bundle.halt
            (record {
              valid = record {
                rob_valid = rob;
                queue_valid = q;
                lsq_bounded = v.lsq_bounded;
                stores_bounded = v.stores_bounded;
                predictor_valid = v.predictor_valid;
              };
              clock = refl;
            })
            (if_keeps (Kept sizes cpu) (is_nop bundle.opcode)
              (record {
                valid = record {
                  rob_valid = rob;
                  queue_valid = q;
                  lsq_bounded = v.lsq_bounded;
                  stores_bounded = v.stores_bounded;
                  predictor_valid = v.predictor_valid;
                };
                clock = refl;
              })
              (record { valid = v; clock = refl }))))

  after_dispatch-Kept :
      (bundle : RenameBundle) (cpu : Cpu) (r : Bool × Dispatcher)
      → IsValid sizes cpu
      → Dispatchable sizes.rob_capacity r.1
      → Kept sizes cpu (after_dispatch sizes bundle cpu r).1
  unfolding after_dispatch
  after_dispatch-Kept bundle cpu (ok, d) v w =
      let cpu' : Cpu = record cpu { rob = d.rob; issue_queue = d.issue_queue; prf = d.prf } in
      let k : Kept sizes cpu cpu' = record {
        valid = record {
          rob_valid = w.rob_valid;
          queue_valid = w.queue_valid;
          lsq_bounded = v.lsq_bounded;
          stores_bounded = v.stores_bounded;
          predictor_valid = v.predictor_valid;
        };
        clock = refl;
      } in
      if_keeps (Kept sizes cpu) ok (Kept-trans k (enter-Kept bundle cpu.rob.tail cpu' k.valid)) k

  -- The alias table is not part of what stays well formed here.
  dispatch_lane-Kept :
      (bundle : RenameBundle) (cpu : Cpu)
      → IsValid sizes cpu
      → Kept sizes cpu (dispatch_lane sizes bundle cpu).1
  unfolding dispatch_lane
  dispatch_lane-Kept bundle cpu v =
      let (cp, rat) = AliasTable.checkpoint cpu.rat in
      let cpu' : Cpu = record cpu { rat = rat } in
      let saved : Option Checkpoint = if is_branch bundle.control_flow then some cp else none in
      let v' : IsValid sizes cpu' = record {
        rob_valid = v.rob_valid;
        queue_valid = v.queue_valid;
        lsq_bounded = v.lsq_bounded;
        stores_bounded = v.stores_bounded;
        predictor_valid = v.predictor_valid;
      } in
      let d =
        dispatch-Dispatchable sizes.rob_capacity (dispatcher cpu') bundle saved
          (record { rob_valid = v.rob_valid; queue_valid = v.queue_valid }) in
      let k =
        after_dispatch-Kept bundle cpu'
          (Dispatch.dispatch sizes.rob_capacity (dispatcher cpu') bundle saved) v' d in
      if_keeps (λ (r : Bool × Cpu). Kept sizes cpu r.1) (not bundle.valid)
        (record { valid = v; clock = refl }) (record { valid = k.valid; clock = k.clock })

  dispatch_lanes-Kept :
      (out0 out1 : RenameBundle) (cpu : Cpu)
      → IsValid sizes cpu
      → Kept sizes cpu (dispatch_lanes sizes out0 out1 cpu).1
  unfolding dispatch_lanes
  dispatch_lanes-Kept out0 out1 cpu v =
      let cpu0 = (dispatch_lane sizes out0 cpu).1 in
      let k0 = dispatch_lane-Kept out0 cpu v in
      let k1 = dispatch_lane-Kept out1 cpu0 k0.valid in
      if_keeps (λ (r : ℕ × Cpu). Kept sizes cpu r.1) cpu0.halt_dispatched k0 (Kept-trans k0 k1)

  rename_stage-Kept :
      (in0 in1 : DecodeBundle) (cpu : Cpu)
      → IsValid sizes cpu
      → Kept sizes cpu (rename_stage sizes in0 in1 cpu).1
  unfolding rename_stage
  rename_stage-Kept in0 in1 cpu v =
      let (out0, out1, u) = Renamer.rename_both (renamer cpu) in0 in1 in
      let k = dispatch_lanes-Kept out0 out1 (renamed cpu u) (record {
        rob_valid = v.rob_valid;
        queue_valid = v.queue_valid;
        lsq_bounded = v.lsq_bounded;
        stores_bounded = v.stores_bounded;
        predictor_valid = v.predictor_valid;
      }) in
      if_keeps (λ (r : ℕ × Cpu). Kept sizes cpu r.1) (Renamer.can_rename_both (renamer cpu) in0 in1)
        (record { valid = k.valid; clock = k.clock }) (record { valid = v; clock = refl })

  predict_and_rename-Kept :
      (dec0 dec1 : DecodeBundle) (pred : BranchPredictionResult) (cpu : Cpu)
      → IsValid sizes cpu
      → Kept sizes cpu (predict_and_rename sizes dec0 dec1 pred cpu).cpu
  unfolding predict_and_rename
  predict_and_rename-Kept dec0 dec1 pred cpu v =
      let lane1 = annotate dec1 pred.lane1 in
      rename_stage-Kept (annotate dec0 pred.lane0)
        (if pred.redirect && pred.redirect_lane == 0 then record lane1 { valid = false } else lane1)
        cpu v

  pub front_stage-Kept :
      (bus : BusLogic) (f : Fetched) (cpu : Cpu)
      → IsValid sizes cpu
      → Kept sizes cpu (front_stage sizes bus f cpu).cpu
  unfolding front_stage
  front_stage-Kept bus f cpu v =
      let dec0 = Unit.decode bus f.pc0 f.instruction0 f.valid0 in
      let dec1 = Unit.decode bus f.pc1 f.instruction1 f.valid1 in
      predict_and_rename-Kept dec0 dec1
        (PredictionUnit.evaluate sizes.table_size cpu.predictor dec0.pc dec0.valid dec0.control_flow
          dec1.pc dec1.valid dec1.control_flow)
        cpu v
