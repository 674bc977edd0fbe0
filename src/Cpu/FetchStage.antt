-- ===== src/Cpu/FetchStage.antt =====
-- Stages 1 to 3 of `step` in superscalar/datapath/SuperScalarCPU.hpp: the fetch unit, the instruction
-- memory and the fetch/decode register over the wires between them.
use cpu_cpp.Base.{ℕ, Bool, true, false}
use cpu_cpp.Fetch.ProgramCounter.{LogicParts}
use cpu_cpp.Fetch.Unit
use cpu_cpp.Fetch.Unit.{FetchUnit, FetchBundle, Ports}
use cpu_cpp.Fetch.DecodeReg
use cpu_cpp.Fetch.DecodeReg.{FetchDecodeReg}
use cpu_cpp.Fetch.InstructionMemory
use cpu_cpp.Fetch.InstructionMemory.{InstructionMemory, Widths}
use cpu_cpp.Cpu.State.{Redirect}

-- The units and the wires that they share. The enable of the fetch/decode register is HIGH from the
-- reset on; nothing writes it after.
pub record FetchSide (Register : Type 0) : Type 0 where
  pub clock : Bool
  pub fetch_unit : FetchUnit Register
  pub imem : InstructionMemory
  pub fetch_inst0 : ℕ
  pub fetch_inst1 : ℕ
  pub fetch_hit0 : Bool
  pub fetch_hit1 : Bool
  pub fd_reg : FetchDecodeReg Register

-- `FetchUnit<32, 32>` by the constructor with the redirect wires.
abbrev pub cpu_ports : Ports
cpu_ports = record { instruction_bytes = 4; stall_wired = false; redirect_wired = true }

module _ (parts : LogicParts) (widths : Widths) (rom : Bool → ℕ → ℕ) where
  abbrev pub unit_inputs : Redirect → FetchSide parts.Register → Unit.Inputs
  unit_inputs r s = record {
    reset = false;
    stall = false;
    redirect = r.active;
    redirect_pc = r.redirect_pc;
    hit0 = s.fetch_hit0;
    hit1 = s.fetch_hit1;
    instruction0 = s.fetch_inst0;
    instruction1 = s.fetch_inst1;
  }

  -- The flush is a pulse beside the redirect.
  abbrev pub register_inputs : Redirect → FetchSide parts.Register → DecodeReg.Inputs
  register_inputs r s = record {
    reset = false;
    enable = true;
    flush = r.active;
    fetch = record {
      pc0 = s.fetch_unit.pc0;
      instruction0 = s.fetch_inst0;
      valid0 = s.fetch_unit.valid0;
      pc1 = s.fetch_unit.pc1;
      instruction1 = s.fetch_inst1;
      valid1 = s.fetch_unit.valid1;
    };
  }

  -- `fetch_unit_.evaluate()` and `fd_reg_.evaluate()` at the level of the clock.
  unfoldable pub evaluate_unit : Redirect → FetchSide parts.Register → FetchSide parts.Register
  evaluate_unit r s = record s {
    fetch_unit = Unit.evaluate parts cpu_ports s.clock (unit_inputs r s) s.fetch_unit;
  }

  unfoldable pub evaluate_register : Redirect → FetchSide parts.Register → FetchSide parts.Register
  evaluate_register r s = record s {
    fd_reg = DecodeReg.evaluate parts s.clock (register_inputs r s) s.fd_reg;
  }

  unfoldable pub eval_clock_edge : Redirect → FetchSide parts.Register → FetchSide parts.Register
  unfolding evaluate_unit evaluate_register
  eval_clock_edge r s =
      let low = evaluate_register r (evaluate_unit r (record s { clock = false })) in
      evaluate_register r (evaluate_unit r (record low { clock = true }))

  unfoldable pub fetch_stage : Redirect → FetchSide parts.Register → FetchSide parts.Register
  unfolding eval_clock_edge InstructionMemory.evaluate
  fetch_stage r s =
      let (y, imem) =
        InstructionMemory.evaluate widths rom true true s.fetch_unit.pc0 s.fetch_unit.pc1 s.imem in
      let answered : FetchSide parts.Register = record s {
        imem = imem;
        fetch_inst0 = y.instruction0;
        fetch_inst1 = y.instruction1;
        fetch_hit0 = y.response0;
        fetch_hit1 = y.response1;
      } in
      eval_clock_edge r (evaluate_unit r answered)
