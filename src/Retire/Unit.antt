-- ===== src/Retire/Unit.antt =====
-- superscalar/core/commit/CommitUnit.hpp: up to `commit_width` completed entries leave the head of
-- the reorder buffer in a cycle. `cap` is `ROBCapacity`.
use cpu_cpp.Base.{
  ℕ, zero, suc, ◌+◌, Bool, true, false, not, ◌&&◌, ◌||◌, Option, none, some, List, [], ◌∷◌, ◌==◌,
  if◌then◌else◌,
}
use mathlib.Core.Option
use cpu_cpp.Isa.{Opcode, invalid_register}
use cpu_cpp.Rename.FreeList
use cpu_cpp.Rename.FreeList.{FreeList}
use cpu_cpp.Rename.AliasTable
use cpu_cpp.Rename.AliasTable.{AliasTable}
use cpu_cpp.Rename.RegisterFile
use cpu_cpp.Rename.RegisterFile.{RegisterFile}
use cpu_cpp.Memory.StoreBuffer
use cpu_cpp.Memory.StoreBuffer.{StoreBuffer}
use cpu_cpp.Rob.Entry.{Entry}
use cpu_cpp.Rob.Buffer
use cpu_cpp.Rob.Buffer.{Buffer}
use cpu_cpp.Retire.ArchitecturalFile
use cpu_cpp.Retire.ArchitecturalFile.{ArchitecturalFile}

pub record CommitEvent : Type 0 where
  pub valid : Bool
  pub rob_index : ℕ
  pub pc : ℕ
  pub opcode : Opcode
  pub register_write : Bool
  pub architectural_rd : ℕ
  pub physical_rd : ℕ
  pub freed_physical_reg : ℕ
  pub word : ℕ
  pub branch : Bool
  pub store : Bool
  pub halt : Bool

-- What the arguments of `step` lead to, and the unit's own fields. `store_buffer` is `none` for
-- null. The count of instructions is a ℕ; the code's wraps at 2^64.
pub record Committer : Type 0 where
  pub rob : Buffer
  pub prf : RegisterFile
  pub arf : ArchitecturalFile
  pub free_list : FreeList
  pub rat : AliasTable
  pub store_buffer : Option StoreBuffer
  pub committed_instruction_count : ℕ
  pub halted : Bool

unfoldable pub reset : Committer → Committer
reset u = record u { committed_instruction_count = 0; halted = false }

-- The event of a committed entry.
unfoldable pub event_of : RegisterFile → Entry → CommitEvent
event_of prf e = record {
  valid = true;
  rob_index = e.rob_index;
  pc = e.pc;
  opcode = e.opcode;
  register_write = e.register_write;
  architectural_rd = e.architectural_rd;
  physical_rd = e.physical_rd;
  freed_physical_reg = e.old_physical_rd;
  word = if e.register_write then RegisterFile.read prf e.physical_rd else 0;
  branch = e.branch;
  store = e.memory_write;
  halt = e.halt;
}

-- The test before the release, on top of the one that `release_back` makes.
unfoldable pub free_old : Entry → FreeList → FreeList
free_old e free =
    if e.register_write && not (e.old_physical_rd == invalid_register)
    then FreeList.release_back free e.old_physical_rd
    else free

-- The effects of a committed entry on the other structures.
unfoldable pub retire : Committer → Entry → Committer
unfolding free_old
retire u e = record u {
  arf =
      if e.register_write
      then ArchitecturalFile.write u.arf e.architectural_rd (RegisterFile.read u.prf e.physical_rd)
      else u.arf;
  free_list = free_old e u.free_list;
  rat = if e.branch && e.has_checkpoint then AliasTable.pop_checkpoint u.rat else u.rat;
  store_buffer =
      if e.memory_write
      then Option.map (λ sb. (StoreBuffer.mark_committed sb e.rob_index).1) u.store_buffer
      else u.store_buffer;
  halted = if e.halt then true else u.halted;
  committed_instruction_count = u.committed_instruction_count + 1;
}

-- The check of the head, `none` where the loop breaks.
unfoldable pub head_completed : Option Entry → Bool
head_completed none = false
head_completed (some e) = e.valid && e.completed

-- The end of a round: what `rob.commit` returned, and the rounds after it.
unfoldable pub finish_round :
    (Committer → List CommitEvent × Committer)
    → Committer
    → Option Entry × Buffer
    → List CommitEvent × Committer
unfolding retire event_of
finish_round later u (none, rob) = ([], record u { rob = rob })
finish_round later u (some e, rob) =
    let u' = retire (record u { rob = rob }) e in
    let (events, u'') = later u' in
    if u'.halted then (event_of u.prf e ∷ [], u') else (event_of u.prf e ∷ events, u'')

-- The loop of `step`, `n` rounds.
unfoldable pub step : ℕ → ℕ → Committer → List CommitEvent × Committer
unfolding finish_round head_completed
step cap zero u = ([], u)
step cap (suc n) u =
    if Buffer.is_empty u.rob || not (head_completed (Buffer.head_entry u.rob))
    then ([], u)
    else finish_round (step cap n) u (Buffer.commit cap u.rob)
