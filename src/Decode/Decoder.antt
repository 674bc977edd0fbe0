-- ===== src/Decode/Decoder.antt =====
-- include/isa/InstructionDecoder.hpp: the decoder that every processor of the repository shares.
use Prim.Native.Nat.{bit_and, bit_or}
use cpu_cpp.Base.{ℕ, ◌==◌, if◌then◌else◌}
use cpu_cpp.Isa.{Opcode, InstructionFormat, DecodedInstruction}
use cpu_cpp.Decode.Instruction
use cpu_cpp.Decode.Instruction.{BusLogic}

-- The first `switch`; without a `default`, the zero of `decoded{}` stays for an unnamed opcode.
abbrev pub format_of : Opcode → InstructionFormat
format_of Opcode.add = InstructionFormat.r_type
format_of Opcode.sub = InstructionFormat.r_type
format_of Opcode.and = InstructionFormat.r_type
format_of Opcode.or = InstructionFormat.r_type
format_of Opcode.xor = InstructionFormat.r_type
format_of Opcode.not = InstructionFormat.r_type
format_of Opcode.li = InstructionFormat.i_type
format_of Opcode.addi = InstructionFormat.i_type
format_of Opcode.lw = InstructionFormat.i_type
format_of Opcode.nop = InstructionFormat.i_type
format_of Opcode.halt = InstructionFormat.i_type
format_of Opcode.sw = InstructionFormat.s_type
format_of Opcode.beq = InstructionFormat.b_type
format_of Opcode.bne = InstructionFormat.b_type
format_of Opcode.j = InstructionFormat.j_type
format_of (Opcode.unnamed n) = InstructionFormat.r_type

-- The 26-bit immediate of `J_TYPE`; `0xFC000000` is `~0x03FFFFFFU`.
unfoldable pub jump_immediate : ℕ → ℕ
jump_immediate raw =
    let immediate = bit_and raw 0x03FF_FFFF in
    if bit_and immediate 0x0200_0000 == 0 then immediate else bit_or immediate 0xFC00_0000

module _ (bus : BusLogic) where
  -- The second `switch`, on a word and the fields that the first part has set.
  unfoldable pub fields_of : InstructionFormat → ℕ → DecodedInstruction → DecodedInstruction
  unfolding jump_immediate
  fields_of InstructionFormat.r_type raw decoded = record decoded {
    rd = Instruction.rd bus raw;
    rs1 = Instruction.rs1 bus raw;
    rs2 = Instruction.rs2 bus raw;
  }
  fields_of InstructionFormat.i_type raw decoded = record decoded {
    rd = Instruction.rd bus raw;
    rs1 = Instruction.rs1 bus raw;
    immediate = Instruction.immediate bus raw;
  }
  fields_of InstructionFormat.s_type raw decoded = record decoded {
    rs2 = Instruction.rd bus raw;
    rs1 = Instruction.rs1 bus raw;
    immediate = Instruction.immediate bus raw;
  }
  fields_of InstructionFormat.b_type raw decoded = record decoded {
    rs1 = Instruction.rd bus raw;
    rs2 = Instruction.rs1 bus raw;
    immediate = Instruction.immediate bus raw;
  }
  fields_of InstructionFormat.j_type raw decoded = record decoded { immediate = jump_immediate raw }

  unfoldable pub decode : ℕ → DecodedInstruction
  unfolding fields_of
  decode raw =
      let opcode = Instruction.opcode bus raw in
      fields_of (format_of opcode) raw (record {
        opcode = opcode;
        format = format_of opcode;
        rd = 0;
        rs1 = 0;
        rs2 = 0;
        immediate = 0;
      })
