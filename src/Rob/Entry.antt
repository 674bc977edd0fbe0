-- ===== src/Rob/Entry.antt =====
-- superscalar/core/dispatch/ROBEntry.hpp: one entry, and the entry that `allocate` builds.
use cpu_cpp.Base.{ℕ, Bool, true, false, Option, none, some, if◌then◌else◌}
use cpu_cpp.Isa.{Opcode, is_branch, is_jump}
use cpu_cpp.Rename.AliasTable.{Checkpoint, blank_checkpoint}
use cpu_cpp.Rename.Bundle.{RenameBundle}

pub record Entry : Type 0 where
  pub valid : Bool
  pub completed : Bool
  pub rob_index : ℕ
  pub pc : ℕ
  pub instruction : ℕ
  pub opcode : Opcode
  pub register_write : Bool
  pub architectural_rd : ℕ
  pub physical_rd : ℕ
  pub old_physical_rd : ℕ
  pub result : ℕ
  pub memory_read : Bool
  pub memory_write : Bool
  pub memory_address : ℕ
  pub store_data : ℕ
  pub branch : Bool
  pub branch_taken : Bool
  pub branch_target : ℕ
  pub predicted_taken : Bool
  pub predicted_target : ℕ
  pub has_prediction : Bool
  pub jump : Bool
  pub jump_target : ℕ
  pub halt : Bool
  pub has_checkpoint : Bool
  pub checkpoint : Checkpoint

-- `ROBEntry{}`
abbrev pub blank : Entry
blank = record {
  valid = false;
  completed = false;
  rob_index = 0;
  pc = 0;
  instruction = 0;
  opcode = Opcode.nop;
  register_write = false;
  architectural_rd = 0;
  physical_rd = 0;
  old_physical_rd = 0;
  result = 0;
  memory_read = false;
  memory_write = false;
  memory_address = 0;
  store_data = 0;
  branch = false;
  branch_taken = false;
  branch_target = 0;
  predicted_taken = false;
  predicted_target = 0;
  has_prediction = false;
  jump = false;
  jump_target = 0;
  halt = false;
  has_checkpoint = false;
  checkpoint = blank_checkpoint;
}

-- The branch checkpoint is kept only for a branch, and only where one was handed over.
abbrev pub save_checkpoint : Entry → Option Checkpoint → Entry
save_checkpoint entry none = entry
save_checkpoint entry (some cp) =
    if entry.branch then record entry { has_checkpoint = cp.valid; checkpoint = cp } else entry

-- The entry that `allocate` writes at place `tail`.
unfoldable pub entry_of : RenameBundle → ℕ → Option Checkpoint → Entry
entry_of bundle tail checkpoint =
    let entry : Entry = record blank {
      valid = true;
      completed = false;
      rob_index = tail;
      pc = bundle.pc;
      instruction = bundle.instruction;
      opcode = bundle.opcode;
      register_write = bundle.register_write;
      architectural_rd = bundle.rd;
      physical_rd = bundle.physical_rd;
      old_physical_rd = bundle.old_physical_rd;
      memory_read = bundle.memory_read;
      memory_write = bundle.memory_write;
      branch = is_branch bundle.control_flow;
      jump = is_jump bundle.control_flow;
      halt = bundle.halt;
      predicted_taken = bundle.prediction.predicted_taken;
      predicted_target = bundle.prediction.predicted_target;
      has_prediction = bundle.prediction.valid;
    } in
    save_checkpoint entry checkpoint

-- The write of `complete`.
unfoldable pub complete_entry : ℕ → Entry → Entry
complete_entry result e = record e { result = result; completed = true }
