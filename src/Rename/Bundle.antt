-- ===== src/Rename/Bundle.antt =====
-- superscalar/core/decode/DecodeBundle.hpp and superscalar/core/rename/RenameBundle.hpp: what
-- decode hands to rename, and rename to dispatch.
use cpu_cpp.Base.{ℕ, Bool, false}
use cpu_cpp.Isa.{
  Opcode, InstructionFormat, AluOperation, OperandSource, ControlFlow, invalid_register,
}

pub record PredictionInfo : Type 0 where
  pub valid : Bool
  pub predicted_taken : Bool
  pub predicted_target : ℕ

pub record DecodeBundle : Type 0 where
  pub valid : Bool
  pub pc : ℕ
  pub instruction : ℕ
  pub opcode : Opcode
  pub format : InstructionFormat
  pub rd : ℕ
  pub rs1 : ℕ
  pub rs2 : ℕ
  pub immediate : ℕ
  pub alu_operation : AluOperation
  pub operand_a : OperandSource
  pub operand_b : OperandSource
  pub register_write : Bool
  pub memory_read : Bool
  pub memory_write : Bool
  pub control_flow : ControlFlow
  pub prediction : PredictionInfo
  pub halt : Bool

pub record RenameBundle : Type 0 where
  pub valid : Bool
  pub pc : ℕ
  pub instruction : ℕ
  pub opcode : Opcode
  pub format : InstructionFormat
  pub rd : ℕ
  pub rs1 : ℕ
  pub rs2 : ℕ
  pub physical_rd : ℕ
  pub old_physical_rd : ℕ
  pub physical_rs1 : ℕ
  pub physical_rs2 : ℕ
  pub immediate : ℕ
  pub alu_operation : AluOperation
  pub operand_a : OperandSource
  pub operand_b : OperandSource
  pub register_write : Bool
  pub memory_read : Bool
  pub memory_write : Bool
  pub control_flow : ControlFlow
  pub prediction : PredictionInfo
  pub halt : Bool

-- The default member initialisers.
abbrev pub blank_prediction : PredictionInfo
blank_prediction = record { valid = false; predicted_taken = false; predicted_target = 0 }

abbrev pub blank_decode : DecodeBundle
blank_decode = record {
  valid = false;
  pc = 0;
  instruction = 0;
  opcode = Opcode.nop;
  format = InstructionFormat.i_type;
  rd = 0;
  rs1 = 0;
  rs2 = 0;
  immediate = 0;
  alu_operation = AluOperation.none;
  operand_a = OperandSource.none;
  operand_b = OperandSource.none;
  register_write = false;
  memory_read = false;
  memory_write = false;
  control_flow = ControlFlow.none;
  prediction = blank_prediction;
  halt = false;
}

abbrev pub blank_rename : RenameBundle
blank_rename = record {
  valid = false;
  pc = 0;
  instruction = 0;
  opcode = Opcode.nop;
  format = InstructionFormat.i_type;
  rd = 0;
  rs1 = 0;
  rs2 = 0;
  physical_rd = invalid_register;
  old_physical_rd = invalid_register;
  physical_rs1 = 0;
  physical_rs2 = 0;
  immediate = 0;
  alu_operation = AluOperation.none;
  operand_a = OperandSource.none;
  operand_b = OperandSource.none;
  register_write = false;
  memory_read = false;
  memory_write = false;
  control_flow = ControlFlow.none;
  prediction = blank_prediction;
  halt = false;
}
