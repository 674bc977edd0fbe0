-- ===== src/Decode/Instruction.antt =====
-- include/isa/Instruction.hpp: the fields of a 32-bit word, cut out of a bus wire by wire. The bus
-- is the `logic` library's, which is not in the repository, so it is an argument.
use cpu_cpp.Base.{ℕ, zero, suc, Bool, List, [], ◌∷◌, ◌++◌, get_or, replicate}
use cpu_cpp.Isa.{Opcode}

-- `logic::Bus`: the wire `i` of a bus after `write_value v`, and `read_value` of a bus whose wires,
-- from wire 0 on, are those of the list.
pub record BusLogic : Type 0 where
  pub wire : ℕ → ℕ → Bool
  pub read_value : List Bool → ℕ

-- The enumerators with a number, in order.
abbrev named_opcodes : List Opcode
named_opcodes =
    Opcode.nop ∷ Opcode.add ∷ Opcode.sub ∷ Opcode.and ∷ Opcode.or ∷ Opcode.xor ∷ Opcode.not
    ∷ Opcode.li ∷ Opcode.addi ∷ Opcode.lw ∷ Opcode.sw ∷ Opcode.beq ∷ Opcode.bne ∷ Opcode.j
    ∷ Opcode.halt ∷ []

-- `static_cast<Opcode>`
abbrev pub opcode_of : ℕ → Opcode
opcode_of n = get_or named_opcodes n (Opcode.unnamed n)

module _ (bus : BusLogic) where
  -- The loops: `n` wires of the instruction's bus, from wire `i` on.
  unfoldable pub wires : ℕ → ℕ → ℕ → List Bool
  wires raw i zero = []
  wires raw i (suc n) = bus.wire raw i ∷ wires raw (suc i) n

  unfoldable pub opcode : ℕ → Opcode
  unfolding wires
  opcode raw = opcode_of (bus.read_value (wires raw 26 6))

  unfoldable pub rd : ℕ → ℕ
  unfolding wires
  rd raw = bus.read_value (wires raw 22 4)

  unfoldable pub rs1 : ℕ → ℕ
  unfolding wires
  rs1 raw = bus.read_value (wires raw 18 4)

  unfoldable pub rs2 : ℕ → ℕ
  unfolding wires
  rs2 raw = bus.read_value (wires raw 14 4)

  -- Wire 17 fans out to the upper 14 wires.
  unfoldable pub immediate : ℕ → ℕ
  unfolding wires
  immediate raw = bus.read_value (wires raw 0 18 ++ replicate 14 (bus.wire raw 17))
