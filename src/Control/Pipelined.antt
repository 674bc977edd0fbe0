-- ===== src/Control/Pipelined.antt =====
-- pipelined_cpu/core/ControlUnit.hpp and ControlSignals.hpp.
use cpu_cpp.Base.{Bool, true, false}
use cpu_cpp.Isa.{Opcode, AluOperation, DecodedInstruction}

pub record ExControlSignals : Type 0 where
  pub reg_dst : Bool
  pub alu_src : Bool
  pub alu_op : AluOperation

pub record MemControlSignals : Type 0 where
  pub branch : Bool
  pub mem_read : Bool
  pub mem_write : Bool

pub record WbControlSignals : Type 0 where
  pub reg_write : Bool
  pub mem_to_reg : Bool

pub record PipelinedControlSignals : Type 0 where
  pub reg_dst : Bool
  pub alu_src : Bool
  pub alu_op : AluOperation
  pub branch : Bool
  pub mem_read : Bool
  pub mem_write : Bool
  pub reg_write : Bool
  pub mem_to_reg : Bool

-- What the signals of each stage are.
unfoldable pub ex : PipelinedControlSignals → ExControlSignals
ex s = record { reg_dst = s.reg_dst; alu_src = s.alu_src; alu_op = s.alu_op }

unfoldable pub mem : PipelinedControlSignals → MemControlSignals
mem s = record { branch = s.branch; mem_read = s.mem_read; mem_write = s.mem_write }

unfoldable pub wb : PipelinedControlSignals → WbControlSignals
wb s = record { reg_write = s.reg_write; mem_to_reg = s.mem_to_reg }

abbrev idle : PipelinedControlSignals
idle = record {
  reg_dst = false;
  alu_src = false;
  alu_op = AluOperation.add;
  branch = false;
  mem_read = false;
  mem_write = false;
  reg_write = false;
  mem_to_reg = false;
}

-- An instruction that writes the result of the operation to `rd`.
abbrev arithmetic : Bool → AluOperation → PipelinedControlSignals
arithmetic immediate operation = record idle {
  reg_dst = true;
  alu_src = immediate;
  alu_op = operation;
  reg_write = true;
}

-- The `switch` on the opcode.
abbrev signals_of : Opcode → PipelinedControlSignals
signals_of Opcode.nop = idle
signals_of Opcode.add = arithmetic false AluOperation.add
signals_of Opcode.sub = arithmetic false AluOperation.sub
signals_of Opcode.and = arithmetic false AluOperation.and
signals_of Opcode.or = arithmetic false AluOperation.or
signals_of Opcode.xor = arithmetic false AluOperation.xor
signals_of Opcode.not = arithmetic false AluOperation.not
signals_of Opcode.li = arithmetic true AluOperation.pass_b
signals_of Opcode.addi = arithmetic true AluOperation.add
signals_of Opcode.lw = record (arithmetic true AluOperation.add) {
  mem_read = true;
  mem_to_reg = true;
}
signals_of Opcode.sw = record idle { alu_src = true; alu_op = AluOperation.add; mem_write = true }
signals_of Opcode.beq = record idle { alu_op = AluOperation.sub; branch = true }
signals_of Opcode.bne = record idle { alu_op = AluOperation.sub; branch = true }
signals_of Opcode.j = record idle { branch = true }
signals_of Opcode.halt = idle
signals_of (Opcode.unnamed n) = idle

unfoldable pub generate : DecodedInstruction → PipelinedControlSignals
generate instruction = signals_of instruction.opcode
