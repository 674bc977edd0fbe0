-- ===== src/Fetch/ProgramCounter.antt =====
-- components/ProgramCounter.hpp: two multiplexers before a register. Registers, multiplexers and
-- adders are the `logic` library's, which is not in the repository, so they are an argument.
use cpu_cpp.Base.{ℕ, ◌+◌, ◌%◌, ◌^◌, ◌<◌, ◌≡◌, Bool, true, false}

-- A register of a bus; a bus is the number on its wires.
pub record LogicParts : Type 1 where
  pub Register : Type 0
  -- `evaluate` at a clock level and an input.
  pub evaluate_register : Bool → ℕ → Register → Register
  pub register_output : Register → ℕ
  -- `Mux`: two inputs and the select.
  pub mux : ℕ → ℕ → Bool → ℕ
  -- `RippleCarryAdder` of the address width, with a LOW carry in.
  pub adder : ℕ → ℕ → ℕ

-- The documented behaviour of the parts. A register takes its input in while the clock is LOW, and
-- shows what it took in once the clock is HIGH.
pub record LogicLaws (address_width : ℕ) (parts : LogicParts) : Type 0 where
  pub loaded : parts.Register → ℕ
  pub low_loads : (v : ℕ) (r : parts.Register) → loaded (parts.evaluate_register false v r) ≡ v
  pub low_keeps :
      (v : ℕ) (r : parts.Register)
      → parts.register_output (parts.evaluate_register false v r) ≡ parts.register_output r
  pub high_shows :
      (v : ℕ) (r : parts.Register)
      → parts.register_output (parts.evaluate_register true v r) ≡ loaded r
  pub high_keeps :
      (v : ℕ) (r : parts.Register) → loaded (parts.evaluate_register true v r) ≡ loaded r
  pub mux_low : (a b : ℕ) → parts.mux a b false ≡ a
  pub mux_high : (a b : ℕ) → parts.mux a b true ≡ b
  pub adder_is :
      (a b : ℕ)
      → a < 2 ^ address_width
      → b < 2 ^ address_width
      → parts.adder a b ≡ (a + b) % 2 ^ address_width

module _ (parts : LogicParts) where
  -- `ProgramCounter::evaluate` at the levels of clock, reset and enable.
  unfoldable pub evaluate : Bool → Bool → Bool → ℕ → parts.Register → parts.Register
  evaluate clock reset enable next pc_reg =
      let enable_mux_out = parts.mux (parts.register_output pc_reg) next enable in
      let register_input = parts.mux enable_mux_out 0 reset in
      parts.evaluate_register clock register_input pc_reg
