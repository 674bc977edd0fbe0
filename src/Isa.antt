-- ===== src/Isa.antt =====
-- The enumerations of include/isa, components/ControlSignals.hpp and
-- superscalar/core/decode/DecodeTypes.hpp, and the sizes that belong to them.
-- A register number is a ℕ (the code casts it to `size_t` and checks it against the array's size),
-- a `uint32_t` is a ℕ below 2 ^ 32, an `int32_t` immediate is its bit pattern.
use cpu_cpp.Base.{ℕ, Bool, true, false}

pub data Opcode : Type 0 where
  nop add sub and or xor not li addi lw sw beq bne j halt : Opcode
  -- `static_cast` of a number that no enumerator has
  unnamed : ℕ → Opcode

pub data InstructionFormat : Type 0 where
  r_type i_type s_type b_type j_type : InstructionFormat

pub data AluOperation : Type 0 where
  add sub and or xor not pass_a pass_b none : AluOperation

pub data OperandSource : Type 0 where
  none register immediate pc : OperandSource

pub data ControlFlow : Type 0 where
  none branch jump : ControlFlow

abbrev pub register_count : ℕ
register_count = 16

-- `PhysicalRegisterFreeList::INVALID_REGISTER`
abbrev pub invalid_register : ℕ
invalid_register = 0xFF

abbrev pub is_branch : ControlFlow → Bool
is_branch ControlFlow.branch = true
is_branch _ = false

abbrev pub is_jump : ControlFlow → Bool
is_jump ControlFlow.jump = true
is_jump _ = false

abbrev pub is_register : OperandSource → Bool
is_register OperandSource.register = true
is_register _ = false

-- What the decoder hands to every control unit.
pub record DecodedInstruction : Type 0 where
  pub opcode : Opcode
  pub format : InstructionFormat
  pub rd : ℕ
  pub rs1 : ℕ
  pub rs2 : ℕ
  pub immediate : ℕ
