-- ===== src/Rename/RegisterFile.antt =====
-- superscalar/core/issue/PhysicalRegisterFile.hpp: values and ready bits of the physical registers.
-- `PhysicalRegisterCount` is the length of the array.
use cpu_cpp.Base.{ℕ, Bool, true, false, List, ltb, if◌then◌else◌, get_or, set, length, replicate}

pub record RegisterState : Type 0 where
  pub value : ℕ
  pub ready : Bool

abbrev pub RegisterFile : Type 0
RegisterFile = List RegisterState

abbrev pub blank_register : RegisterState
blank_register = record { value = 0; ready = false }

abbrev pub valid_register : RegisterFile → ℕ → Bool
valid_register registers p = ltb p (length registers)

unfoldable pub reset : RegisterFile → RegisterFile
reset registers = replicate (length registers) blank_register

unfoldable pub read : RegisterFile → ℕ → ℕ
read registers p =
    if valid_register registers p then (get_or registers p blank_register).value else 0

unfoldable pub ready : RegisterFile → ℕ → Bool
ready registers p =
    if valid_register registers p then (get_or registers p blank_register).ready else false

unfoldable pub allocate : RegisterFile → ℕ → RegisterFile
allocate registers p =
    if valid_register registers p then set registers p blank_register else registers

unfoldable pub write : RegisterFile → ℕ → ℕ → RegisterFile
write registers p v =
    if valid_register registers p
    then set registers p (record { value = v; ready = true })
    else registers

unfoldable pub set_ready : RegisterFile → ℕ → Bool → RegisterFile
set_ready registers p ready_state =
    if valid_register registers p
    then set registers p
        (record { value = (get_or registers p blank_register).value; ready = ready_state })
    else registers
