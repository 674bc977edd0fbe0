-- ===== src/Cpu/Bubble.antt =====
-- A pair of bubbles in the front half of superscalar/datapath/SuperScalarCPU.hpp.
use cpu_cpp.Base.{ℕ, ◌≡◌, refl, ap, ◌∙◌, Bool, true, false, arith, leb, if◌then◌else◌, length}
use mathlib.Core.Path.{ap₂}
use cpu_cpp.Rename.Bundle.{blank_rename}
use cpu_cpp.Rename.Renamer.{rename, rename_both, can_rename_both}
use cpu_cpp.Branch.PredictionUnit
use cpu_cpp.Decode.Instruction.{BusLogic}
use cpu_cpp.Decode.Unit
use cpu_cpp.Cpu.State.{Sizes, Cpu, Fetched, no_redirect}
use cpu_cpp.Cpu.Frontend.{
  Front, dispatch_lane, dispatch_lanes, rename_stage, predict_and_rename, front_stage,
}

abbrev bubbles : ℕ → ℕ → ℕ → ℕ → Fetched
bubbles pc0 instruction0 pc1 instruction1 = record {
  pc0 = pc0;
  instruction0 = instruction0;
  valid0 = false;
  pc1 = pc1;
  instruction1 = instruction1;
  valid1 = false;
}

abbrev Same : ℕ × Cpu → ℕ × Cpu → Type 0
Same a b = a ≡ b

nothing_dispatched :
    (sizes : Sizes) (cpu : Cpu) → Same (dispatch_lanes sizes blank_rename blank_rename cpu) (0, cpu)
unfolding dispatch_lanes dispatch_lane
nothing_dispatched sizes cpu = if_same cpu.halt_dispatched
  where
    if_same : (b : Bool) → Same (if b then (0, cpu) else (0, cpu)) (0, cpu)
    if_same true = refl
    if_same false = refl

room : (n : ℕ) → leb 0 n ≡ true
room n = ground arith

module _ (sizes : Sizes) (bus : BusLogic) where
  at_bubbles :
      (pc0 instruction0 pc1 instruction1 : ℕ) (cpu : Cpu)
      → front_stage sizes bus (bubbles pc0 instruction0 pc1 instruction1) cpu ≡ record {
        decoded = 0;
        dispatched = 0;
        redirect = no_redirect;
        cpu = record cpu { stalled = false };
      }
  unfolding front_stage predict_and_rename rename_stage Unit.decode PredictionUnit.evaluate
      rename_both rename can_rename_both
  at_bubbles pc0 instruction0 pc1 instruction1 cpu =
      let cpu' : Cpu = record cpu { stalled = false } in
      let front : ℕ × Cpu → Front =
        λ r. record { decoded = 0; dispatched = r.0; redirect = no_redirect; cpu = r.1 } in
      ap (λ b. front (if b then dispatch_lanes sizes blank_rename blank_rename cpu' else (0, cpu)))
        (room (length cpu.free_list))
      ∙ ap front (nothing_dispatched sizes cpu')

  -- Where the fetch/decode register holds two bubbles, whatever their words, the front stages
  -- decode and dispatch nothing, send no redirect, and change nothing but the rename unit's stall
  -- flag, which they clear.
  pub front_stage_bubbles :
      (f : Fetched) (cpu : Cpu)
      → f.valid0 ≡ false
      → f.valid1 ≡ false
      → front_stage sizes bus f cpu ≡ record {
        decoded = 0;
        dispatched = 0;
        redirect = no_redirect;
        cpu = record cpu { stalled = false };
      }
  front_stage_bubbles f cpu p q =
      ap₂ (λ a b. front_stage sizes bus (record f { valid0 = a; valid1 = b }) cpu) p q
      ∙ at_bubbles f.pc0 f.instruction0 f.pc1 f.instruction1 cpu
