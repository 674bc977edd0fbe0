-- ===== src/Examples/BranchRuns.antt =====
-- A predictor of four slots, and a misprediction with two younger instructions in flight.
use cpu_cpp.Base.{◌≡◌, refl, true, false, Option, none, some, [], ◌∷◌, arith, replicate}
use cpu_cpp.Isa.{Opcode, ControlFlow}
use cpu_cpp.Rename.Bundle.{RenameBundle, blank_rename}
use cpu_cpp.Rename.AliasTable.{Checkpoint}
use cpu_cpp.Rename.FreeList
use cpu_cpp.Rob.Entry.{entry_of}
use cpu_cpp.Rob.Buffer
use cpu_cpp.Rob.Buffer.{Buffer}
use cpu_cpp.Issue.Queue
use cpu_cpp.Issue.Queue.{IssueQueue}
use cpu_cpp.Branch.Predictor
use cpu_cpp.Branch.Predictor.{BranchPredictor, BranchPredictionState, predict, update}
use cpu_cpp.Branch.Saturation
use cpu_cpp.Branch.Saturation.{update-IsValid, predict_learns, predict_target}
use cpu_cpp.Branch.Recovery.{BranchResult, Recoverer, no_control, recover}
use cpu_cpp.Branch.Restored

abbrev untrained : BranchPredictor
untrained = Predictor.reset 4 BranchPredictionState.weak_not_taken

untrained-IsValid : Saturation.IsValid 4 untrained
unfolding Predictor.reset
untrained-IsValid = record {
  size_pos = omega arith;
  sized = refl;
  btb_sized = refl;
  two_bits = (omega arith, (omega arith, (omega arith, (omega arith, tt))));
}

update-IsValid_example : Saturation.IsValid 4 (update 4 untrained 100 true 64)
update-IsValid_example = update-IsValid 4 untrained 100 true 64 untrained-IsValid

predict_learns_example :
    (predict 4 (update 4 (update 4 untrained 100 true 64) 100 true 64) 100).taken ≡ true
predict_learns_example = predict_learns 4 untrained 100 true 64 64 untrained-IsValid

predict_target_example :
    ((predict 4 (update 4 untrained 100 true 64) 100).btb_hit ≡ true)
    × ((predict 4 (update 4 untrained 100 true 64) 100).target ≡ 64)
predict_target_example = predict_target 4 untrained 100 64 untrained-IsValid

abbrev bundle : RenameBundle
bundle = record blank_rename {
  valid = true;
  rd = 3;
  physical_rd = 20;
  old_physical_rd = 3;
  register_write = true;
}

abbrev saved : Option Checkpoint
saved = some (record { mappings = replicate 16 1; valid = true })

abbrev branch_bundle : RenameBundle
branch_bundle = record blank_rename { valid = true; control_flow = ControlFlow.branch }

abbrev branch_only : Buffer
branch_only = (Buffer.allocate 4 (Buffer.reset 4) branch_bundle saved).1

abbrev in_flight : Buffer
in_flight = (Buffer.allocate 4 branch_only bundle none).1

abbrev recoverer : Recoverer
recoverer = record {
  control = no_control;
  rob = in_flight;
  rat = record { table = replicate 16 2; physical_reg_count = 64; checkpoints = [] };
  free_list = 30 ∷ [];
  issue_queue = record {
    entries = record (Queue.blank) { valid = true; rob_index = 1 } ∷ [];
    count = 1;
  };
}

abbrev mispredicted : BranchResult
mispredicted = record {
  valid = true;
  rob_index = 0;
  pc = 100;
  opcode = Opcode.beq;
  taken = true;
  target = 64;
  target_pc = 64;
  fallthrough = 104;
  fallthrough_pc = 104;
  next_pc = 64;
  predicted_taken = false;
  predicted_target = 0;
  mispredicted = true;
  redirect_pc = 64;
}

-- The recovery takes place and frees the register of the younger instruction.
recovery_frees :
    ((recover 4 recoverer mispredicted).0 ≡ true)
    × ((recover 4 recoverer mispredicted).1.free_list ≡ 20 ∷ 30 ∷ [])
unfolding recover Buffer.entry Buffer.allocate Buffer.reset entry_of Buffer.squash_younger_than
    Buffer.locate Buffer.sweep FreeList.release
recovery_frees = (refl, refl)
