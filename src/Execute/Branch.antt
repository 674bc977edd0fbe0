-- ===== src/Execute/Branch.antt =====
-- superscalar/core/branch/BranchExecutionUnit.hpp: a branch is resolved and its prediction checked.
pub mod Checked
use cpu_cpp.Base.{ℕ, zero, ◌+◌, ◌%◌, ◌^◌, Bool, true, false, not, ◌&&◌, ◌==◌, if◌then◌else◌, set}
use cpu_cpp.Isa.{Opcode}
use cpu_cpp.Issue.Queue.{Entry}
use cpu_cpp.Issue.Unit.{ExecutionRequest}
use cpu_cpp.Branch.Predictor
use cpu_cpp.Branch.Predictor.{BranchPredictor}
use cpu_cpp.Branch.Recovery.{BranchResult}

-- The arithmetic of the `logic` library that the unit drives: the sum of `RippleCarryAdder<32>`
-- with no carry in, and the zero wire of `ALU<32>` at a subtraction.
pub record BranchHardware : Type 0 where
  pub adder_sum : ℕ → ℕ → ℕ
  pub sub_zero : ℕ → ℕ → Bool

-- What an evaluation is about: the fields that `set_instruction` and `set_prediction` set.
pub record BranchInput : Type 0 where
  pub opcode : Opcode
  pub pc : ℕ
  pub operand_a : ℕ
  pub operand_b : ℕ
  pub immediate : ℕ
  pub rob_index : ℕ
  pub predicted_taken : Bool
  pub predicted_target : ℕ

-- The `switch` on the opcode.
abbrev pub resolve : Opcode → Bool → Bool
resolve Opcode.beq is_zero = is_zero
resolve Opcode.bne is_zero = not is_zero
resolve Opcode.j is_zero = true
resolve _ is_zero = false

abbrev same : Bool → Bool → Bool
same true b = b
same false b = not b

-- The check of the prediction.
unfoldable pub check_prediction : Bool → ℕ → Bool → ℕ → Bool
check_prediction predicted_taken predicted_target actual_taken actual_target =
    if not (same predicted_taken actual_taken)
    then true
    else (if actual_taken && not (predicted_target == 0) && not (predicted_target == actual_target)
        then true
        else false)

module _ (hardware : BranchHardware) where
  -- `set_instruction`, `set_prediction`, `evaluate()` and `result()`, as the overloads of
  -- `evaluate` call them.
  unfoldable pub evaluate : BranchInput → BranchResult
  unfolding check_prediction
  evaluate x =
      let actual_target = hardware.adder_sum x.pc x.immediate in
      let actual_taken = resolve x.opcode (hardware.sub_zero x.operand_a x.operand_b) in
      let fallthrough_pc = (x.pc + 4) % 2 ^ 32 in
      let next_pc = if actual_taken then actual_target else fallthrough_pc in
      let mispredicted =
        check_prediction x.predicted_taken x.predicted_target actual_taken actual_target in
      record {
        valid = true;
        rob_index = x.rob_index;
        pc = x.pc;
        opcode = x.opcode;
        taken = actual_taken;
        target = actual_target;
        target_pc = actual_target;
        fallthrough = fallthrough_pc;
        fallthrough_pc = fallthrough_pc;
        next_pc = next_pc;
        predicted_taken = x.predicted_taken;
        predicted_target = x.predicted_target;
        mispredicted = mispredicted;
        redirect_pc = if mispredicted then next_pc else 0;
      }

  unfoldable pub evaluate_entry : Entry → Bool → ℕ → BranchResult
  unfolding evaluate
  evaluate_entry entry predicted_taken predicted_target = evaluate (record {
    opcode = entry.opcode;
    pc = entry.pc;
    operand_a = entry.rs1_value;
    operand_b = entry.rs2_value;
    immediate = entry.immediate;
    rob_index = entry.rob_index;
    predicted_taken = predicted_taken;
    predicted_target = predicted_target;
  })

  unfoldable pub evaluate_request : ExecutionRequest → Bool → ℕ → BranchResult
  unfolding evaluate
  evaluate_request request predicted_taken predicted_target = evaluate (record {
    opcode = request.opcode;
    pc = request.pc;
    operand_a = request.rs1_value;
    operand_b = request.rs2_value;
    immediate = request.immediate;
    rob_index = request.rob_index;
    predicted_taken = predicted_taken;
    predicted_target = predicted_target;
  })

  -- The prediction of the input is the predictor's.
  unfoldable pub evaluate_with_predictor :
      ℕ → BranchPredictor → BranchInput → BranchResult × BranchPredictor
  unfolding evaluate
  evaluate_with_predictor table_size predictor x =
      let prediction = Predictor.predict table_size predictor x.pc in
      let result =
        evaluate
          (record x { predicted_taken = prediction.taken; predicted_target = prediction.target }) in
      (result, Predictor.update table_size predictor x.pc result.taken result.target_pc)
