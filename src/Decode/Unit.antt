-- ===== src/Decode/Unit.antt =====
-- superscalar/core/decode/DecodeUnit.hpp: an instruction word becomes the bundle that rename takes.
use cpu_cpp.Base.{ℕ, Bool, true, false, not, if◌then◌else◌}
use cpu_cpp.Isa.{Opcode, AluOperation, OperandSource, ControlFlow, DecodedInstruction}
use cpu_cpp.Rename.Bundle.{DecodeBundle, blank_decode}
use cpu_cpp.Decode.Instruction.{BusLogic}
use cpu_cpp.Decode.Decoder

-- An instruction that writes the result of an operation on two sources to `rd`.
abbrev arithmetic : AluOperation → OperandSource → OperandSource → DecodeBundle → DecodeBundle
arithmetic operation a b bundle = record bundle {
  alu_operation = operation;
  operand_a = a;
  operand_b = b;
  register_write = true;
}

abbrev conditional : DecodeBundle → DecodeBundle
conditional bundle = record bundle {
  alu_operation = AluOperation.sub;
  operand_a = OperandSource.register;
  operand_b = OperandSource.register;
  register_write = false;
  control_flow = ControlFlow.branch;
}

unfoldable pub decode_control : Opcode → DecodeBundle → DecodeBundle
decode_control Opcode.nop bundle = bundle
decode_control Opcode.add bundle =
    arithmetic AluOperation.add OperandSource.register OperandSource.register bundle
decode_control Opcode.sub bundle =
    arithmetic AluOperation.sub OperandSource.register OperandSource.register bundle
decode_control Opcode.and bundle =
    arithmetic AluOperation.and OperandSource.register OperandSource.register bundle
decode_control Opcode.or bundle =
    arithmetic AluOperation.or OperandSource.register OperandSource.register bundle
decode_control Opcode.xor bundle =
    arithmetic AluOperation.xor OperandSource.register OperandSource.register bundle
decode_control Opcode.not bundle =
    arithmetic AluOperation.not OperandSource.register OperandSource.none bundle
decode_control Opcode.li bundle =
    arithmetic AluOperation.add OperandSource.none OperandSource.immediate bundle
decode_control Opcode.addi bundle =
    arithmetic AluOperation.add OperandSource.register OperandSource.immediate bundle
decode_control Opcode.lw bundle =
    record (arithmetic AluOperation.add OperandSource.register OperandSource.immediate bundle) {
      memory_read = true;
    }
decode_control Opcode.sw bundle = record bundle {
  alu_operation = AluOperation.add;
  operand_a = OperandSource.register;
  operand_b = OperandSource.immediate;
  register_write = false;
  memory_write = true;
}
decode_control Opcode.beq bundle = conditional bundle
decode_control Opcode.bne bundle = conditional bundle
decode_control Opcode.j bundle = record bundle {
  register_write = false;
  control_flow = ControlFlow.jump;
}
decode_control Opcode.halt bundle = record bundle { halt = true }
decode_control (Opcode.unnamed n) bundle = bundle

-- What `decode` fills in from the shared decoder, and the control signals after it.
unfoldable pub fill : DecodedInstruction → DecodeBundle → DecodeBundle
unfolding decode_control
fill decoded bundle = decode_control decoded.opcode (record bundle {
  opcode = decoded.opcode;
  format = decoded.format;
  rd = decoded.rd;
  rs1 = decoded.rs1;
  rs2 = decoded.rs2;
  immediate = decoded.immediate;
})

module _ (bus : BusLogic) where
  -- `decode(pc, raw_instruction, valid)`
  unfoldable pub decode : ℕ → ℕ → Bool → DecodeBundle
  unfolding fill
  decode pc raw_instruction valid =
      let bundle : DecodeBundle = record blank_decode {
        valid = valid;
        pc = pc;
        instruction = raw_instruction;
      } in
      if not valid then bundle else fill (Decoder.decode bus raw_instruction) bundle

  -- The two-wide `decode`.
  unfoldable pub decode_both : ℕ → ℕ → Bool → ℕ → ℕ → Bool → DecodeBundle × DecodeBundle
  unfolding decode
  decode_both pc0 instruction0 valid0 pc1 instruction1 valid1 =
      (decode pc0 instruction0 valid0, decode pc1 instruction1 valid1)
