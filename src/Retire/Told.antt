-- ===== src/Retire/Told.antt =====
-- What the commit of entries in superscalar/core/commit/CommitUnit.hpp is expected to do outside the
-- reorder buffer.
use cpu_cpp.Base.{
  ℕ, ◌≡◌, refl, sym, inl, inr, true, false, not, ◌&&◌, List, [], ◌∷◌, leb, ◌==◌, if◌then◌else◌,
  leb→le, Bool-cases, length, set, set_out,
}
use cpu_cpp.Isa.{invalid_register}
use cpu_cpp.Rename.RegisterFile
use cpu_cpp.Rename.RegisterFile.{RegisterFile}
use cpu_cpp.Retire.ArchitecturalFile
use cpu_cpp.Rob.Entry.{Entry}
use cpu_cpp.Retire.Unit.{CommitEvent, event_of}

-- The registers that the entries of a list give back, in order.
abbrev pub freed : List Entry → List ℕ
freed [] = []
freed (e ∷ es) =
    let rest = freed es in
    if e.register_write && not (e.old_physical_rd == invalid_register)
    then e.old_physical_rd ∷ rest
    else rest

-- What an event tells of the entry: its fields, and the destination's value where it has one.
abbrev pub told : RegisterFile → Entry → CommitEvent
told prf e = record {
  valid = true;
  rob_index = e.rob_index;
  pc = e.pc;
  opcode = e.opcode;
  register_write = e.register_write;
  architectural_rd = e.architectural_rd;
  physical_rd = e.physical_rd;
  freed_physical_reg = e.old_physical_rd;
  word = if e.register_write then RegisterFile.read prf e.physical_rd else 0;
  branch = e.branch;
  store = e.memory_write;
  halt = e.halt;
}

-- The architectural registers after the entries have written their values, in order.
abbrev pub written : RegisterFile → List Entry → List ℕ → List ℕ
written prf [] registers = registers
written prf (e ∷ es) registers = written prf es (
    if e.register_write
    then set registers e.architectural_rd (RegisterFile.read prf e.physical_rd)
    else registers)

pub write-set :
    (registers : List ℕ) (i v : ℕ) → ArchitecturalFile.write registers i v ≡ set registers i v
unfolding ArchitecturalFile.write
write-set registers i v = elim (Bool-cases (leb (length registers) i)) [
  | inl h ↦ rw h (sym (set_out registers i v (leb→le _ _ h)))
  | inr h ↦ rw h refl
]

pub told_same : (prf : RegisterFile) (e : Entry) → event_of prf e ≡ told prf e
unfolding event_of
told_same prf e = refl

-- No entry of the list can be committed next.
abbrev pub Stuck : List Entry → Type 0
Stuck [] = Unit
Stuck (e ∷ es) = e.completed ≡ false
