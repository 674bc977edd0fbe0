-- ===== src/Branch/PredictionUnit.antt =====
-- superscalar/core/branch/BranchPredictionUnit.hpp: the predictions of two lanes, the older first.
use cpu_cpp.Base.{ℕ, Bool, true, false, ◌&&◌, if◌then◌else◌}
use cpu_cpp.Isa.{ControlFlow}
use cpu_cpp.Branch.Predictor.{BranchPredictor, BranchPrediction, predict}

pub record BranchPredictionResult : Type 0 where
  pub lane0 : BranchPrediction
  pub lane1 : BranchPrediction
  pub lane0_is_control_flow : Bool
  pub lane1_is_control_flow : Bool
  pub redirect : Bool
  pub redirect_lane : ℕ
  pub redirect_pc : ℕ

abbrev pub is_control_flow : ControlFlow → Bool
is_control_flow ControlFlow.none = false
is_control_flow _ = true

abbrev pub no_prediction : BranchPrediction
no_prediction = record { taken = false; target = 0; btb_hit = false }

-- A lane whose prediction redirects the fetch.
abbrev pub redirects : Bool → BranchPrediction → Bool
redirects control p = control && p.taken && p.btb_hit

unfoldable pub evaluate :
    ℕ → BranchPredictor → ℕ → Bool → ControlFlow → ℕ → Bool → ControlFlow → BranchPredictionResult
evaluate table_size p pc0 valid0 control_flow0 pc1 valid1 control_flow1 =
    let control0 = valid0 && is_control_flow control_flow0 in
    let control1 = valid1 && is_control_flow control_flow1 in
    let lane0 = if control0 then predict table_size p pc0 else no_prediction in
    let lane1 = if control1 then predict table_size p pc1 else no_prediction in
    let first = redirects control0 lane0 in
    let second = redirects control1 lane1 in
    record {
      lane0 = lane0;
      lane1 = lane1;
      lane0_is_control_flow = control0;
      lane1_is_control_flow = control1;
      redirect = if first then true else second;
      redirect_lane = if first then 0 else (if second then 1 else 0);
      redirect_pc = if first then lane0.target else (if second then lane1.target else 0);
    }
