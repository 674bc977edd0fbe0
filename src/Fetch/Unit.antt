-- ===== src/Fetch/Unit.antt =====
-- superscalar/core/fetch/FetchUnit.hpp and FetchBundle.hpp: the address of the next pair of
-- instructions.
use cpu_cpp.Base.{ℕ, ◌*◌, ◌%◌, ◌^◌, Bool, false, not, ◌&&◌, if◌then◌else◌}
use cpu_cpp.Fetch.ProgramCounter
use cpu_cpp.Fetch.ProgramCounter.{LogicParts}

pub record FetchBundle : Type 0 where
  pub pc0 : ℕ
  pub instruction0 : ℕ
  pub valid0 : Bool
  pub pc1 : ℕ
  pub instruction1 : ℕ
  pub valid1 : Bool

-- The template's parameters, and whether the constructor was given the optional wires.
pub record Ports : Type 0 where
  pub instruction_bytes : ℕ
  pub stall_wired : Bool
  pub redirect_wired : Bool

-- The levels of the input wires and buses in an evaluation.
pub record Inputs : Type 0 where
  pub reset : Bool
  pub stall : Bool
  pub redirect : Bool
  pub redirect_pc : ℕ
  pub hit0 : Bool
  pub hit1 : Bool
  pub instruction0 : ℕ
  pub instruction1 : ℕ

-- `pc_enable_`, `program_counter_` with `pc_`, `pc_next_`, and the output buses and wires.
pub record FetchUnit (Register : Type 0) : Type 0 where
  pub pc_enable : Bool
  pub program_counter : Register
  pub pc_next : ℕ
  pub pc0 : ℕ
  pub pc1 : ℕ
  pub next_pc : ℕ
  pub valid0 : Bool
  pub valid1 : Bool

module _ (parts : LogicParts) (ports : Ports) where
  abbrev fetch_bytes : ℕ
  fetch_bytes = 2 * ports.instruction_bytes

  unfoldable pub evaluate : Bool → Inputs → FetchUnit parts.Register → FetchUnit parts.Register
  unfolding ProgramCounter.evaluate
  evaluate clock x u =
      let pc_enable : Bool = if ports.stall_wired then not x.stall else u.pc_enable in
      let counted =
        ProgramCounter.evaluate parts clock x.reset pc_enable u.pc_next u.program_counter in
      let pc : ℕ = parts.register_output counted in
      let pc_plus_4 = parts.adder pc ports.instruction_bytes in
      let pc_plus_8 = parts.adder pc fetch_bytes in
      let pc_next : ℕ = if ports.redirect_wired && x.redirect then x.redirect_pc else pc_plus_8 in
      let routed = ProgramCounter.evaluate parts clock x.reset pc_enable pc_next counted in
      record {
        pc_enable = pc_enable;
        program_counter = routed;
        pc_next = pc_next;
        pc0 = parts.register_output routed;
        pc1 = pc_plus_4;
        next_pc = pc_plus_8;
        valid0 = if x.reset then false else x.hit0;
        valid1 = if x.reset then false else x.hit1;
      }

  -- The casts to `uint32_t` keep 32 bits.
  unfoldable pub get_bundle : Inputs → FetchUnit parts.Register → FetchBundle
  get_bundle x u = record {
    pc0 = u.pc0 % 2 ^ 32;
    instruction0 = x.instruction0 % 2 ^ 32;
    valid0 = u.valid0;
    pc1 = u.pc1 % 2 ^ 32;
    instruction1 = x.instruction1 % 2 ^ 32;
    valid1 = u.valid1;
  }
