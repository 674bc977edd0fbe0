-- ===== src/Control/SingleCycle.antt =====
-- single_cycle_cpu/datapath/ControlUnit.hpp, and the signals of components/ControlSignals.hpp.
use cpu_cpp.Base.{Bool, true, false}
use cpu_cpp.Isa.{Opcode, AluOperation, DecodedInstruction}

pub record ControlSignals : Type 0 where
  pub register_write : Bool
  pub alu_source_immediate : Bool
  pub alu_operation : AluOperation
  pub memory_read : Bool
  pub memory_write : Bool
  pub branch : Bool
  pub jump : Bool
  pub halt : Bool

abbrev idle : ControlSignals
idle = record {
  register_write = false;
  alu_source_immediate = false;
  alu_operation = AluOperation.add;
  memory_read = false;
  memory_write = false;
  branch = false;
  jump = false;
  halt = false;
}

-- An R-type instruction: the result of the operation goes to the register file.
abbrev arithmetic : AluOperation → ControlSignals
arithmetic operation = record idle { register_write = true; alu_operation = operation }

-- The `switch` on the opcode.
abbrev pub signals_of : Opcode → ControlSignals
signals_of Opcode.nop = idle
signals_of Opcode.add = arithmetic AluOperation.add
signals_of Opcode.sub = arithmetic AluOperation.sub
signals_of Opcode.and = arithmetic AluOperation.and
signals_of Opcode.or = arithmetic AluOperation.or
signals_of Opcode.xor = arithmetic AluOperation.xor
signals_of Opcode.not = arithmetic AluOperation.not
signals_of Opcode.li = record idle {
  register_write = true;
  alu_source_immediate = true;
  alu_operation = AluOperation.pass_b;
}
signals_of Opcode.addi = record idle {
  register_write = true;
  alu_source_immediate = true;
  alu_operation = AluOperation.add;
}
signals_of Opcode.lw = record idle {
  register_write = true;
  alu_source_immediate = true;
  alu_operation = AluOperation.add;
  memory_read = true;
}
signals_of Opcode.sw = record idle {
  alu_source_immediate = true;
  alu_operation = AluOperation.add;
  memory_write = true;
}
signals_of Opcode.beq = record idle { alu_operation = AluOperation.sub; branch = true }
signals_of Opcode.bne = record idle { alu_operation = AluOperation.sub; branch = true }
signals_of Opcode.j = record idle { jump = true }
signals_of Opcode.halt = record idle { halt = true }
signals_of (Opcode.unnamed n) = idle

unfoldable pub generate : DecodedInstruction → ControlSignals
generate instruction = signals_of instruction.opcode
