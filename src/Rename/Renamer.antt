-- ===== src/Rename/Renamer.antt =====
-- superscalar/core/rename/RenameUnit.hpp: one-wide and two-wide rename over the alias table, the
-- free list and (where the unit was given one) the physical register file.
use mathlib.Core.Option
use cpu_cpp.Base.{
  ℕ, ◌+◌, Bool, true, false, not, ◌&&◌, ◌||◌, Option, leb, ◌==◌, if◌then◌else◌, length,
}
use cpu_cpp.Isa.{invalid_register}
use cpu_cpp.Rename.FreeList
use cpu_cpp.Rename.FreeList.{FreeList}
use cpu_cpp.Rename.AliasTable
use cpu_cpp.Rename.AliasTable.{AliasTable}
use cpu_cpp.Rename.RegisterFile
use cpu_cpp.Rename.RegisterFile.{RegisterFile}
use cpu_cpp.Rename.Bundle.{DecodeBundle, RenameBundle, blank_rename}

-- What the unit's references and its `prf_` pointer (`none` for null) lead to, and its own flag.
pub record Renamer : Type 0 where
  pub rat : AliasTable
  pub free_list : FreeList
  pub prf : Option RegisterFile
  pub stalled : Bool

unfoldable pub can_rename : Renamer → DecodeBundle → Bool
can_rename u input =
    if not input.valid || not input.register_write then true else not (length u.free_list == 0)

abbrev pub needs_register : DecodeBundle → ℕ
needs_register input = if input.valid && input.register_write then 1 else 0

-- `can_rename(input0, input1)`
unfoldable pub can_rename_both : Renamer → DecodeBundle → DecodeBundle → Bool
can_rename_both u input0 input1 =
    leb (needs_register input0 + needs_register input1) (length u.free_list)

-- The fields that a valid instruction keeps, and its source registers through the table.
unfoldable pub translate : AliasTable → DecodeBundle → RenameBundle
translate rat input = record {
  valid = true;
  pc = input.pc;
  instruction = input.instruction;
  opcode = input.opcode;
  format = input.format;
  rd = input.rd;
  rs1 = input.rs1;
  rs2 = input.rs2;
  physical_rd = invalid_register;
  old_physical_rd = invalid_register;
  physical_rs1 = AliasTable.lookup rat input.rs1;
  physical_rs2 = AliasTable.lookup rat input.rs2;
  immediate = input.immediate;
  alu_operation = input.alu_operation;
  operand_a = input.operand_a;
  operand_b = input.operand_b;
  register_write = input.register_write;
  memory_read = input.memory_read;
  memory_write = input.memory_write;
  control_flow = input.control_flow;
  prediction = input.prediction;
  halt = input.halt;
}

-- The destination, once the free list has given its front.
unfoldable pub claim : Renamer → RenameBundle → ℕ × FreeList → RenameBundle × Renamer
claim u output (new_physical_rd, free) =
    if new_physical_rd == invalid_register
    then (
      record output { valid = false; physical_rd = invalid_register },
      record u { free_list = free; stalled = true },
    )
    else (
      record output { physical_rd = new_physical_rd },
      record u {
        free_list = free;
        prf = Option.map (λ prf. RegisterFile.allocate prf new_physical_rd) u.prf;
        rat = AliasTable.set u.rat output.rd new_physical_rd;
      },
    )

-- `rename(input)`
unfoldable pub rename : Renamer → DecodeBundle → RenameBundle × Renamer
unfolding translate claim
rename u input =
    if not input.valid
    then (blank_rename, u)
    else (let output = translate u.rat input in
        if input.register_write
        then claim u (record output { old_physical_rd = AliasTable.lookup u.rat input.rd })
            (FreeList.allocate u.free_list)
        else (output, u))

-- The second half of `rename(input0, input1, output0, output1)`.
unfoldable pub rename_lane1 :
    DecodeBundle → DecodeBundle → RenameBundle × Renamer → RenameBundle × RenameBundle × Renamer
rename_lane1 input0 input1 (output0, u) =
    if input0.valid && not output0.valid
    then (output0, blank_rename, record u { stalled = true })
    else (let (output1, u') = rename u input1 in
        (
          output0,
          output1,
          record u' { stalled = u'.stalled || (input1.valid && not output1.valid) },
        ))

unfoldable pub rename_both :
    Renamer → DecodeBundle → DecodeBundle → RenameBundle × RenameBundle × Renamer
unfolding rename_lane1
rename_both u input0 input1 =
    rename_lane1 input0 input1 (rename (record u { stalled = false }) input0)
