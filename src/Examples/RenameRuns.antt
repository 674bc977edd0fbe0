-- ===== src/Examples/RenameRuns.antt =====
-- Renaming over a reset table and three free registers.
use cpu_cpp.Base.{◌≡◌, refl, true, false, none, [], ◌∷◌, arith}
use cpu_cpp.Rename.AliasTable
use cpu_cpp.Rename.Bundle.{DecodeBundle, blank_decode}
use cpu_cpp.Rename.Renamer
use cpu_cpp.Rename.Renamer.{Renamer, can_rename}
use cpu_cpp.Rename.Conserve.{IsValid, Renamed, rename_conserves}

abbrev renamer : Renamer
renamer = record {
  rat = AliasTable.reset (record { table = []; physical_reg_count = 64; checkpoints = [] });
  free_list = 16 ∷ 17 ∷ 18 ∷ [];
  prf = none;
  stalled = false;
}

renamer-IsValid : IsValid renamer
unfolding AliasTable.reset AliasTable.identity_from
renamer-IsValid = record {
  whole = refl;
  small = omega arith;
  accepted = (omega arith, (omega arith, (omega arith, tt)));
}

-- `r5 := r1 op r2`, then `r6 := r5 op r2`
abbrev first : DecodeBundle
first = record blank_decode { valid = true; rd = 5; rs1 = 1; rs2 = 2; register_write = true }

abbrev second : DecodeBundle
second = record blank_decode { valid = true; rd = 6; rs1 = 5; rs2 = 2; register_write = true }

room_for_one : can_rename renamer first ≡ true
unfolding can_rename
room_for_one = refl

rename_conserves_example : Renamed renamer first (Renamer.rename renamer first)
rename_conserves_example = rename_conserves renamer first renamer-IsValid (omega arith) room_for_one
