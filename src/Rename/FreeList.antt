-- ===== src/Rename/FreeList.antt =====
-- superscalar/core/rename/PhysicalRegisterFreeList.hpp: the deque of free physical registers,
-- front first.
use cpu_cpp.Base.{
  ℕ, zero, suc, ◌+◌, ◌-◌, ◌%◌, List, [], ◌∷◌, ◌++◌, Bool, leb, ◌==◌, if◌then◌else◌, length,
}
use cpu_cpp.Isa.{invalid_register}

abbrev pub FreeList : Type 0
FreeList = List ℕ

-- The loop of `reset`: `n` rounds from `i` on, each number cast to `uint8_t`.
unfoldable pub registers_from : ℕ → ℕ → FreeList
registers_from zero i = []
registers_from (suc n) i = (i % 256) ∷ registers_from n (i + 1)

unfoldable pub reset : ℕ → ℕ → FreeList
unfolding registers_from
reset physical_register_count initially_mapped_registers =
    registers_from (physical_register_count - initially_mapped_registers) initially_mapped_registers

unfoldable pub can_allocate : FreeList → ℕ → Bool
can_allocate free_registers count = leb count (length free_registers)

unfoldable pub allocate : FreeList → ℕ × FreeList
allocate [] = (invalid_register, [])
allocate (physical_register ∷ free_registers) = (physical_register, free_registers)

unfoldable pub release : FreeList → ℕ → FreeList
release free_registers physical_register =
    if physical_register == invalid_register
    then free_registers
    else physical_register ∷ free_registers

unfoldable pub release_back : FreeList → ℕ → FreeList
release_back free_registers physical_register =
    if physical_register == invalid_register
    then free_registers
    else free_registers ++ (physical_register ∷ [])
