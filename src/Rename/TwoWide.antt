-- ===== src/Rename/TwoWide.antt =====
-- Two instructions renamed in one cycle, in superscalar/core/rename/RenameUnit.hpp.
use cpu_cpp.Base.{ℕ, ◌+◌, ◌≡◌, false, ◌&&◌, ◌==◌, if◌then◌else◌}
use cpu_cpp.Rename.AliasTable
use cpu_cpp.Rename.Bundle.{DecodeBundle, RenameBundle}
use cpu_cpp.Rename.Renamer
use cpu_cpp.Rename.Renamer.{Renamer}
use cpu_cpp.Rename.Conserve.{IsValid, one_if, uses, writes}

abbrev pub running : Renamer → Renamer
running u = record u { stalled = false }

-- The displaced registers of an instruction.
abbrev pub displaced : DecodeBundle → RenameBundle → ℕ → ℕ
displaced input output p = if writes input then one_if (output.old_physical_rd == p) else 0

pub record BothRenamed (u : Renamer) (input0 input1 : DecodeBundle)
    (r : RenameBundle × RenameBundle × Renamer) : Type 0 where
  pub valid : IsValid r.2
  pub kept0 : r.0.valid ≡ input0.valid
  pub kept1 : r.1.valid ≡ input1.valid
  pub unstalled : r.2.stalled ≡ false
  pub conserved : (p : ℕ) → uses p r.2 + displaced input0 r.0 p + displaced input1 r.1 p ≡ uses p u
  pub bypassed : r.1.physical_rs1 ≡ (
      if input1.valid
      then (if writes input0 && input0.rd == input1.rs1
          then r.0.physical_rd
          else AliasTable.lookup u.rat input1.rs1)
      else 0)
