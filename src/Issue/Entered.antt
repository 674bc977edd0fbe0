-- ===== src/Issue/Entered.antt =====
-- What stands in the reorder buffer and the issue queue after a call of
-- superscalar/core/dispatch/DispatchUnit.hpp.
use cpu_cpp.Base.{
  ℕ, ◌≡◌, refl, sym, ap, ◌∙◌, ◌⊎◌, inl, inr, true, false, ◌&&◌, none, some, [], ◌∷◌, ◌++◌, arith,
  ltb, if◌then◌else◌, Bool-cases, length,
}
use mathlib.Core.Path.{subst}
use mathlib.Core.Option.{some-injective}
use cpu_cpp.Rename.Bundle.{RenameBundle}
use cpu_cpp.Ring.{place, length-window}
use cpu_cpp.Rob.Entry.{entry_of, blank, Entry as RobEntry}
use cpu_cpp.Rob.Buffer
use cpu_cpp.Rob.Buffer.{Buffer}
use cpu_cpp.Rob.Contents
use cpu_cpp.Rob.Contents.{contents}
use cpu_cpp.Rob.Queue as Spec
use cpu_cpp.Rob.Queue.{view}
use cpu_cpp.Rob.Allocate.{allocate_refines}
use cpu_cpp.Issue.Queue
use cpu_cpp.Issue.Queue.{Entry, IssueQueue, put}
use cpu_cpp.Issue.Dispatch.{Dispatcher, make_issue_entry, dispatch, one_if}
use cpu_cpp.Issue.Accepted.{
  IsValid, Room, rob_allocated, enqueue-some, dispatch_skip, dispatch_step, dispatch_takes,
}
use cpu_cpp.Issue.Holds.{
  Holds, Recorded, Stored, make_issue_entry-Holds, entry_of-Recorded, insert-Stored,
}

-- The instruction entered both structures: the queue's entry carries the index under which the
-- reorder buffer has it, as its youngest.
pub record Entered (cap : ℕ) (input : RenameBundle) (d d' : Dispatcher) : Type 0 where
  pub entry : Entry
  pub holds : Holds d.prf input d.rob.tail entry
  pub stored : Stored d.issue_queue.entries entry d'.issue_queue.entries
  pub recorded_entry : RobEntry
  pub recorded : Recorded input d.rob.tail recorded_entry
  pub youngest : contents cap d'.rob ≡ contents cap d.rob ++ (recorded_entry ∷ [])
  pub same_registers : d'.prf ≡ d.prf

-- A bubble leaves everything as it is.
abbrev pub Enters : ℕ → RenameBundle → Dispatcher → Dispatcher → Type 0
Enters cap input d d' =
    ((input.valid ≡ true) × Entered cap input d d') ⊎ ((input.valid ≡ false) × (d' ≡ d))

-- The reorder buffer's queue grows by the instruction.
allocated :
    (cap : ℕ) (rob : Buffer) (input : RenameBundle)
    → Contents.IsValid cap rob
    → input.valid ≡ true
    → Buffer.is_full cap rob ≡ false
    → contents cap (Buffer.allocate cap rob input none).1
      ≡ contents cap rob ++ (entry_of input rob.tail none ∷ [])
unfolding Spec.allocate
allocated cap rob input v h f =
    let refined = allocate_refines cap rob input none v in
    let items = contents cap rob in
    let index = place cap rob.head (length items) in
    let granted : (input.valid && ltb (length items) cap) ≡ true =
      let len : length items ≡ rob.count = length-window cap rob.entries blank rob.head rob.count in
      let k = v.count_in in ground (arith, h, len, f, k) in
    let spec : Spec.allocate cap (view cap rob) input none ≡ (
      some index,
      record (view cap rob) { items = items ++ (entry_of input index none ∷ []) },
    ) =
      ap
        (λ b.
          if b
          then (
            some index,
            record (view cap rob) { items = items ++ (entry_of input index none ∷ []) },
          )
          else (none, view cap rob))
        granted in
    let tail_is : index ≡ rob.tail =
      some-injective _ _
        (sym (ap (λ r. r.0) (refined ∙ spec)) ∙ (rob_allocated cap rob input none h f).0) in
    ap (λ r. r.1.items) (refined ∙ spec) ∙ ap (λ k. items ++ (entry_of input k none ∷ [])) tail_is

dispatch-Entered :
    (cap : ℕ) (d : Dispatcher) (input : RenameBundle)
    → IsValid cap d
    → input.valid ≡ true
    → Buffer.is_full cap d.rob ≡ false
    → Queue.is_full d.issue_queue ≡ false
    → (dispatch cap d input none).0 ≡ true
    → Entered cap input d (dispatch cap d input none).1
dispatch-Entered cap d input v h f g ok =
    let same = dispatch_step cap d input none h f g ∙ enqueue-some d input d.rob.tail _ in
    subst (λ r. Entered cap input d r.1) (sym same)
      (record {
        entry = record (make_issue_entry d.prf input d.rob.tail) { valid = true };
        holds = make_issue_entry-Holds d.prf input d.rob.tail;
        stored = insert-Stored d.issue_queue _ (sym (ap (λ r. r.0) same) ∙ ok);
        recorded_entry = entry_of input d.rob.tail none;
        recorded = entry_of-Recorded input d.rob.tail;
        youngest = allocated cap d.rob input v.rob_valid h f;
        same_registers = refl;
      })

-- With room, a call makes the instruction enter both structures, or is given a bubble.
pub dispatch-Enters :
    (cap : ℕ) (d : Dispatcher) (input : RenameBundle)
    → IsValid cap d
    → Room cap (one_if input.valid) d
    → Enters cap input d (dispatch cap d input none).1
dispatch-Enters cap d input v room = elim (Bool-cases input.valid) [
  | inl h ↦
      let room1 : Room cap 1 d = subst (λ b. Room cap (one_if b) d) h room in
      inl (
        h,
        dispatch-Entered cap d input v h (let k = room1.0 in ground (arith, k))
            (let k = room1.1 in ground (arith, k))
            (dispatch_takes cap d input none v room).0.accepted,
      )
  | inr h ↦ inr (h, ap (λ r. r.1) (dispatch_skip cap d input none h))
]
