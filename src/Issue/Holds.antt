-- ===== src/Issue/Holds.antt =====
-- The entries that superscalar/core/dispatch/DispatchUnit.hpp makes of an instruction, and the slot
-- that superscalar/core/issue/IssueQueue.hpp finds for one.
use cpu_cpp.Base.{
  ℕ, suc, ◌+◌, ◌<◌, ◌≡◌, refl, sym, ap, ◌∙◌, inl, inr, Bool, true, false, not, ◌||◌, none, List, [],
  ◌∷◌, arith, if◌then◌else◌, Bool-cases, length, get_or, set,
}
use mathlib.Core.Path.{subst}
use mathlib.Core.Bool.{false≢true}
use cpu_cpp.Isa.{is_register, is_branch, is_jump}
use cpu_cpp.Rename.Bundle.{RenameBundle}
use cpu_cpp.Rename.RegisterFile
use cpu_cpp.Rename.RegisterFile.{RegisterFile}
use cpu_cpp.Rob.Entry.{entry_of, Entry as RobEntry}
use cpu_cpp.Issue.Queue
use cpu_cpp.Issue.Queue.{Entry, IssueQueue, put}
use cpu_cpp.Issue.Dispatch.{make_issue_entry}

-- An entry of the issue queue for the instruction, at an index of the reorder buffer: a source that
-- is a register is read from the register file, any other is ready. The second source is also read
-- for a store.
pub record Holds (prf : RegisterFile) (input : RenameBundle) (index : ℕ) (e : Entry) : Type 0 where
  pub is_valid : e.valid ≡ true
  pub unissued : e.issued ≡ false
  pub at : e.rob_index ≡ index
  pub same_pc : e.pc ≡ input.pc
  pub same_instruction : e.instruction ≡ input.instruction
  pub same_opcode : e.opcode ≡ input.opcode
  pub same_rd : e.physical_rd ≡ input.physical_rd
  pub same_rs1 : e.physical_rs1 ≡ input.physical_rs1
  pub same_rs2 : e.physical_rs2 ≡ input.physical_rs2
  pub same_immediate : e.immediate ≡ input.immediate
  pub same_operation : e.alu_operation ≡ input.alu_operation
  pub same_a : e.operand_a ≡ input.operand_a
  pub same_b : e.operand_b ≡ input.operand_b
  pub same_write : e.register_write ≡ input.register_write
  pub same_load : e.memory_read ≡ input.memory_read
  pub same_store : e.memory_write ≡ input.memory_write
  pub same_flow : e.control_flow ≡ input.control_flow
  pub same_taken : e.predicted_taken ≡ input.prediction.predicted_taken
  pub same_target : e.predicted_target ≡ input.prediction.predicted_target
  pub same_halt : e.halt ≡ input.halt
  pub first_ready :
      e.rs1_ready
      ≡ (if is_register input.operand_a then RegisterFile.ready prf input.physical_rs1 else true)
  pub first_value :
      e.rs1_value
      ≡ (if is_register input.operand_a then RegisterFile.read prf input.physical_rs1 else 0)
  pub second_ready : e.rs2_ready ≡ (
      if is_register input.operand_b || input.memory_write
      then RegisterFile.ready prf input.physical_rs2
      else true)
  pub second_value : e.rs2_value ≡ (
      if is_register input.operand_b || input.memory_write
      then RegisterFile.read prf input.physical_rs2
      else 0)

-- An entry of the reorder buffer for the instruction.
pub record Recorded (input : RenameBundle) (index : ℕ) (e : RobEntry) : Type 0 where
  pub is_valid : e.valid ≡ true
  pub uncompleted : e.completed ≡ false
  pub at : e.rob_index ≡ index
  pub same_pc : e.pc ≡ input.pc
  pub same_instruction : e.instruction ≡ input.instruction
  pub same_opcode : e.opcode ≡ input.opcode
  pub same_write : e.register_write ≡ input.register_write
  pub same_rd : e.architectural_rd ≡ input.rd
  pub same_physical : e.physical_rd ≡ input.physical_rd
  pub same_old : e.old_physical_rd ≡ input.old_physical_rd
  pub same_load : e.memory_read ≡ input.memory_read
  pub same_store : e.memory_write ≡ input.memory_write
  pub same_branch : e.branch ≡ is_branch input.control_flow
  pub same_jump : e.jump ≡ is_jump input.control_flow
  pub same_halt : e.halt ≡ input.halt
  pub same_taken : e.predicted_taken ≡ input.prediction.predicted_taken
  pub same_target : e.predicted_target ≡ input.prediction.predicted_target

-- The entry stands in a slot that was free, and no other slot has changed.
pub record Stored (es : List Entry) (e : Entry) (es' : List Entry) : Type 0 where
  pub slot : ℕ
  pub within : slot < length es
  pub was_free : (get_or es slot Queue.blank).valid ≡ false
  pub now : es' ≡ set es slot e

pub make_issue_entry-Holds :
    (prf : RegisterFile) (input : RenameBundle) (index : ℕ)
    → Holds prf input index (record (make_issue_entry prf input index) { valid = true })
unfolding make_issue_entry
make_issue_entry-Holds prf input index = record {
  is_valid = refl;
  unissued = refl;
  at = refl;
  same_pc = refl;
  same_instruction = refl;
  same_opcode = refl;
  same_rd = refl;
  same_rs1 = refl;
  same_rs2 = refl;
  same_immediate = refl;
  same_operation = refl;
  same_a = refl;
  same_b = refl;
  same_write = refl;
  same_load = refl;
  same_store = refl;
  same_flow = refl;
  same_taken = refl;
  same_target = refl;
  same_halt = refl;
  first_ready = refl;
  first_value = refl;
  second_ready = refl;
  second_value = refl;
}

pub entry_of-Recorded :
    (input : RenameBundle) (index : ℕ) → Recorded input index (entry_of input index none)
unfolding entry_of
entry_of-Recorded input index = record {
  is_valid = refl;
  uncompleted = refl;
  at = refl;
  same_pc = refl;
  same_instruction = refl;
  same_opcode = refl;
  same_write = refl;
  same_rd = refl;
  same_physical = refl;
  same_old = refl;
  same_load = refl;
  same_store = refl;
  same_branch = refl;
  same_jump = refl;
  same_halt = refl;
  same_taken = refl;
  same_target = refl;
}

Stored-next : (x e : Entry) (es es' : List Entry) → Stored es e es' → Stored (x ∷ es) e (x ∷ es')
Stored-next x e es es' t = record {
  slot = suc t.slot;
  within = (let k = t.within in omega (arith, k));
  was_free = t.was_free;
  now = ap (λ ys. x ∷ ys) t.now;
}

put-Stored : (es : List Entry) (e : Entry) → (put es e).0 ≡ true → Stored es e (put es e).1
unfolding put
put-Stored [] e h = absurd (false≢true h)
put-Stored (x ∷ es) e h = elim (Bool-cases x.valid) [
  | inl a ↦
      let rest : Bool × List Entry = ((put es e).0, x ∷ (put es e).1) in
      let there : (if not x.valid then (true, e ∷ es) else rest) ≡ rest =
        ap (λ b. if not b then (true, e ∷ es) else rest) a in
      subst (λ r. Stored (x ∷ es) e r.1) (sym there)
        (Stored-next x e es _ (put-Stored es e (sym (ap (λ r. r.0) there) ∙ h)))
  | inr a ↦
      let rest : Bool × List Entry = ((put es e).0, x ∷ (put es e).1) in
      subst (λ r. Stored (x ∷ es) e r.1) (sym (ap (λ b. if not b then (true, e ∷ es) else rest) a))
        (record { slot = 0; within = omega arith; was_free = a; now = refl })
]

pub insert-Stored :
    (q : IssueQueue) (e : Entry)
    → (Queue.insert q e).0 ≡ true
    → Stored q.entries (record e { valid = true }) (Queue.insert q e).1.entries
unfolding Queue.insert
insert-Stored q e h =
    let f : Entry = record e { valid = true } in
    let put_in : IssueQueue = record { entries = (put q.entries f).1; count = q.count + 1 } in
    let inner : Bool × IssueQueue = if (put q.entries f).0 then (true, put_in) else (false, q) in
    elim (Bool-cases (Queue.is_full q)) [
      | inl a ↦ absurd (false≢true (sym (ap (λ b. (if b then (false, q) else inner).0) a) ∙ h))
      | inr a ↦
          let whole : (if Queue.is_full q then (false, q) else inner) ≡ inner =
            ap (λ b. if b then (false, q) else inner) a in
          elim (Bool-cases (put q.entries f).0) [
            | inl b ↦
                subst (λ r. Stored q.entries f r.1.entries)
                  (sym (whole ∙ ap (λ c. if c then (true, put_in) else (false, q)) b))
                  (put-Stored q.entries f b)
            | inr b ↦ absurd (
                false≢true (
                  sym (ap (λ r. r.0) (whole ∙ ap (λ c. if c then (true, put_in) else (false, q)) b))
                  ∙ h))
          ]
    ]
