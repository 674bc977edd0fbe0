-- ===== src/Fetch/DecodeReg.antt =====
-- superscalar/core/fetch/FetchDecodeReg.hpp: the register between fetch and decode, with its stall,
-- flush and reset multiplexers.
use cpu_cpp.Base.{ℕ, ◌%◌, ◌^◌, Bool, ◌==◌, if◌then◌else◌}
use cpu_cpp.Fetch.ProgramCounter.{LogicParts}
use cpu_cpp.Fetch.Unit.{FetchBundle}

-- The levels of the control wires and of the fetch side.
pub record Inputs : Type 0 where
  pub reset : Bool
  pub enable : Bool
  pub flush : Bool
  pub fetch : FetchBundle

-- The six registers.
pub record FetchDecodeReg (Register : Type 0) : Type 0 where
  pub pc0 : Register
  pub instruction0 : Register
  pub valid0 : Register
  pub pc1 : Register
  pub instruction1 : Register
  pub valid1 : Register

-- A wire on a bus of width 1, and back.
abbrev pub bus_of : Bool → ℕ
bus_of valid = if valid then 1 else 0

abbrev pub wire_of : ℕ → Bool
wire_of v = v == 1

module _ (parts : LogicParts) where
  -- The three multiplexers and the register of one field.
  unfoldable pub latch : Bool → Inputs → ℕ → parts.Register → parts.Register
  latch clock x input r =
      let enable_out = parts.mux (parts.register_output r) input x.enable in
      let flush_out = parts.mux enable_out 0 x.flush in
      parts.evaluate_register clock (parts.mux flush_out 0 x.reset) r

  unfoldable pub evaluate :
      Bool → Inputs → FetchDecodeReg parts.Register → FetchDecodeReg parts.Register
  unfolding latch
  evaluate clock x r = record {
    pc0 = latch clock x x.fetch.pc0 r.pc0;
    instruction0 = latch clock x x.fetch.instruction0 r.instruction0;
    valid0 = latch clock x (bus_of x.fetch.valid0) r.valid0;
    pc1 = latch clock x x.fetch.pc1 r.pc1;
    instruction1 = latch clock x x.fetch.instruction1 r.instruction1;
    valid1 = latch clock x (bus_of x.fetch.valid1) r.valid1;
  }

  -- The outputs, cast to `uint32_t`.
  unfoldable pub get_bundle : FetchDecodeReg parts.Register → FetchBundle
  get_bundle r = record {
    pc0 = parts.register_output r.pc0 % 2 ^ 32;
    instruction0 = parts.register_output r.instruction0 % 2 ^ 32;
    valid0 = wire_of (parts.register_output r.valid0);
    pc1 = parts.register_output r.pc1 % 2 ^ 32;
    instruction1 = parts.register_output r.instruction1 % 2 ^ 32;
    valid1 = wire_of (parts.register_output r.valid1);
  }
