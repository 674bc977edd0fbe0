-- ===== src/Control/Agree.antt =====
-- The control units of the single-cycle, pipelined and superscalar processors, side by side.
use cpu_cpp.Base.{ℕ, ◌≡◌, Bool, true, false, not, ◌&&◌, ◌||◌, arith, if◌then◌else◌}
use cpu_cpp.Isa.{
  Opcode, AluOperation, OperandSource, is_register, DecodedInstruction, is_branch, is_jump,
}
use cpu_cpp.Rename.Bundle.{DecodeBundle, blank_decode}
use cpu_cpp.Control.SingleCycle
use cpu_cpp.Control.SingleCycle.{ControlSignals}
use cpu_cpp.Control.Pipelined
use cpu_cpp.Control.Pipelined.{PipelinedControlSignals}
use cpu_cpp.Decode.Unit

abbrev is_immediate : OperandSource → Bool
is_immediate OperandSource.immediate = true
is_immediate _ = false

-- A control unit whose ALU result matters: it is written, is an address, or decides a branch.
abbrev pub uses_alu : ControlSignals → Bool
uses_alu s = s.register_write || s.memory_write || s.branch

abbrev pub passes_b : AluOperation → Bool
passes_b AluOperation.pass_b = true
passes_b _ = false

abbrev pub bundle_operation : Bool → AluOperation → AluOperation
bundle_operation used operation =
    if not used
    then AluOperation.none
    else (if passes_b operation then AluOperation.add else operation)

-- The pipelined unit drives a jump as a branch, and a load's write-back from the memory.
pub record SamePipelined (s : ControlSignals) (p : PipelinedControlSignals) : Type 0 where
  pub register_write : p.reg_write ≡ s.register_write
  pub destination : p.reg_dst ≡ s.register_write
  pub from_memory : p.mem_to_reg ≡ s.memory_read
  pub memory_read : p.mem_read ≡ s.memory_read
  pub memory_write : p.mem_write ≡ s.memory_write
  pub control_flow : p.branch ≡ s.branch || s.jump
  pub source : p.alu_src ≡ s.alu_source_immediate
  pub operation : p.alu_op ≡ s.alu_operation

pub record SameBundle (s : ControlSignals) (b : DecodeBundle) : Type 0 where
  pub register_write : b.register_write ≡ s.register_write
  pub memory_read : b.memory_read ≡ s.memory_read
  pub memory_write : b.memory_write ≡ s.memory_write
  pub branch : is_branch b.control_flow ≡ s.branch
  pub jump : is_jump b.control_flow ≡ s.jump
  pub source : is_immediate b.operand_b ≡ s.alu_source_immediate
  pub halt : b.halt ≡ s.halt
  -- The superscalar unit has no PASS_B: it adds the immediate to an absent first operand.
  pub operation : b.alu_operation ≡ bundle_operation (uses_alu s) s.alu_operation
  pub first : is_register b.operand_a ≡ uses_alu s && not (passes_b s.alu_operation)

abbrev pub empty_bundle : ℕ → ℕ → DecodeBundle
empty_bundle pc raw = record blank_decode { valid = true; pc = pc; instruction = raw }

module _ (instruction : DecodedInstruction) (pc raw : ℕ) where
  abbrev Agrees : Opcode → Type 0
  Agrees opcode =
      let i : DecodedInstruction = record instruction { opcode = opcode } in
      let s = SingleCycle.generate i in
      SamePipelined s (Pipelined.generate i) × SameBundle s (Unit.fill i (empty_bundle pc raw))

  by_cases : (opcode : Opcode) → Agrees opcode
  unfolding SingleCycle.generate Pipelined.generate Unit.fill
  by_cases Opcode.nop = ground arith
  by_cases Opcode.add = ground arith
  by_cases Opcode.sub = ground arith
  by_cases Opcode.and = ground arith
  by_cases Opcode.or = ground arith
  by_cases Opcode.xor = ground arith
  by_cases Opcode.not = ground arith
  by_cases Opcode.li = ground arith
  by_cases Opcode.addi = ground arith
  by_cases Opcode.lw = ground arith
  by_cases Opcode.sw = ground arith
  by_cases Opcode.beq = ground arith
  by_cases Opcode.bne = ground arith
  by_cases Opcode.j = ground arith
  by_cases Opcode.halt = ground arith
  by_cases (Opcode.unnamed n) = ground arith

  -- For every decoded instruction, the pipelined unit and the superscalar decode drive the register
  -- write, memory read, memory write, immediate source and ALU operation of the single-cycle unit.
  -- The superscalar decode also drives its branch, jump and halt, asks for an operation only where
  -- the result is used, and has PASS_B as an addition without a first operand; the pipelined unit
  -- drives a jump on the branch line, and has no halt.
  pub control_units_agree :
      SamePipelined (SingleCycle.generate instruction) (Pipelined.generate instruction)
      × SameBundle (SingleCycle.generate instruction) (Unit.fill instruction (empty_bundle pc raw))
  control_units_agree = by_cases instruction.opcode
