-- ===== src/Retire/ArchitecturalFile.antt =====
-- superscalar/core/commit/ArchitecturalRegisterFile.hpp. `ArchitecturalRegisterCount` is the length
-- of the array.
use cpu_cpp.Base.{ℕ, List, leb, if◌then◌else◌, length, get_or, set, replicate}

abbrev pub ArchitecturalFile : Type 0
ArchitecturalFile = List ℕ

unfoldable pub reset : ArchitecturalFile → ArchitecturalFile
reset registers = replicate (length registers) 0

unfoldable pub read : ArchitecturalFile → ℕ → ℕ
read registers index = if leb (length registers) index then 0 else get_or registers index 0

unfoldable pub write : ArchitecturalFile → ℕ → ℕ → ArchitecturalFile
write registers index v = if leb (length registers) index then registers else set registers index v
