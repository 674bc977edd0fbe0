-- ===== src/Execute/Alu.antt =====
-- The integer execution of superscalar/datapath/SuperScalarCPU.hpp: 32-bit operations on an issue
-- queue entry's operands, wrapping modulo 2^32.
use Prim.Native.Nat.{bit_and, bit_or, bit_xor}
use cpu_cpp.Base.{
  ℕ, ◌+◌, ◌-◌, ◌%◌, ◌^◌, Bool, true, false, not, ◌&&◌, Option, none, some, List, [], ◌∷◌,
  if◌then◌else◌,
}
use cpu_cpp.Isa.{AluOperation, ControlFlow, is_register}
use cpu_cpp.Issue.Queue.{Entry}

abbrev pub operand_a : Entry → ℕ
operand_a e = if is_register e.operand_a then e.rs1_value else 0

abbrev pub operand_b : Entry → ℕ
operand_b e = if is_register e.operand_b then e.rs2_value else e.immediate

-- The `switch` on the operation, for operands below 2^32.
unfoldable pub alu_result : AluOperation → ℕ → ℕ → ℕ
alu_result AluOperation.add a b = (a + b) % 2 ^ 32
alu_result AluOperation.sub a b = (a + 2 ^ 32 - b) % 2 ^ 32
alu_result AluOperation.and a b = bit_and a b
alu_result AluOperation.or a b = bit_or a b
alu_result AluOperation.xor a b = bit_xor a b
alu_result AluOperation.not a b = 2 ^ 32 - 1 - a
alu_result _ a b = 0

abbrev pub is_none : AluOperation → Bool
is_none AluOperation.none = true
is_none _ = false

abbrev pub is_no_flow : ControlFlow → Bool
is_no_flow ControlFlow.none = true
is_no_flow _ = false

-- The test of `select_ready_alu_entry`.
abbrev pub is_ready_alu : Entry → Bool
is_ready_alu e =
    e.valid
    && not e.issued
    && e.rs1_ready
    && e.rs2_ready
    && not e.memory_read
    && not e.memory_write
    && is_no_flow e.control_flow
    && not e.halt
    && not (is_none e.alu_operation)

-- `select_ready_alu_entry`, from slot `i` on: the slot of the pointer and the entry.
unfoldable pub select_ready_alu_entry : ℕ → List Entry → Option (ℕ × Entry)
select_ready_alu_entry i [] = none
select_ready_alu_entry i (e ∷ es) =
    let rest = select_ready_alu_entry (i + 1) es in if is_ready_alu e then some (i, e) else rest
