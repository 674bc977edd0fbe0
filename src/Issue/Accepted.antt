-- ===== src/Issue/Accepted.antt =====
-- How many instructions a call of superscalar/core/dispatch/DispatchUnit.hpp takes.
use cpu_cpp.Base.{
  ℕ, ◌+◌, ◌≤◌, ◌≡◌, refl, sym, ap, ◌∙◌, inl, inr, Bool, true, false, not, ◌||◌, Option, some, arith,
  if◌then◌else◌, lt→ltb, Bool-cases, length,
}
use mathlib.Core.Path.{subst}
use cpu_cpp.Rename.AliasTable.{Checkpoint}
use cpu_cpp.Rename.Bundle.{RenameBundle}
use cpu_cpp.Rob.Buffer
use cpu_cpp.Rob.Buffer.{Buffer}
use cpu_cpp.Rob.Contents
use cpu_cpp.Rob.Allocate.{allocate-IsValid}
use cpu_cpp.Issue.Queue
use cpu_cpp.Issue.Queue.{Entry, IssueQueue}
use cpu_cpp.Issue.Counting
use cpu_cpp.Issue.Counting.{insert_counts, live-le}
use cpu_cpp.Issue.Dispatch.{Dispatcher, make_issue_entry, enqueue, dispatch, one_if}

pub record IsValid (cap : ℕ) (d : Dispatcher) : Type 0 where
  pub rob_valid : Contents.IsValid cap d.rob
  pub queue_valid : Counting.IsValid d.issue_queue

-- `n` instructions went into both structures, or the unit refused and changed nothing.
pub record Took (cap n : ℕ) (d : Dispatcher) (r : Bool × Dispatcher) : Type 0 where
  pub accepted : r.0 ≡ true
  pub rob_count : r.1.rob.count ≡ d.rob.count + n
  pub queue_count : r.1.issue_queue.count ≡ d.issue_queue.count + n
  pub queue_length : length r.1.issue_queue.entries ≡ length d.issue_queue.entries

-- There is room for `n` more instructions.
abbrev pub Room : ℕ → ℕ → Dispatcher → Type 0
Room cap n d = (d.rob.count + n ≤ cap) × (d.issue_queue.count + n ≤ length d.issue_queue.entries)

pub rob_allocated :
    (cap : ℕ) (rob : Buffer) (input : RenameBundle) (cp : Option Checkpoint)
    → input.valid ≡ true
    → Buffer.is_full cap rob ≡ false
    → ((Buffer.allocate cap rob input cp).0 ≡ some rob.tail)
      × ((Buffer.allocate cap rob input cp).1.count ≡ rob.count + 1)
unfolding Buffer.allocate
rob_allocated cap rob input cp v f = rw (v, f) (refl, refl)

pub enqueue-some :
    (d : Dispatcher) (input : RenameBundle) (i : ℕ) (rob : Buffer)
    → enqueue d input (some i, rob) ≡ (
      (Queue.insert d.issue_queue (make_issue_entry d.prf input i)).0,
      record d {
        rob = rob;
        issue_queue = (Queue.insert d.issue_queue (make_issue_entry d.prf input i)).1;
      },
    )
unfolding enqueue
enqueue-some d input i rob = refl

plus_none : {b : Bool} (k : ℕ) → b ≡ false → k ≡ k + one_if b
plus_none k h = ground (arith, h)

pub dispatch_skip :
    (cap : ℕ) (d : Dispatcher) (input : RenameBundle) (cp : Option Checkpoint)
    → input.valid ≡ false
    → dispatch cap d input cp ≡ (true, d)
unfolding dispatch
dispatch_skip cap d input cp h = rw h refl

pub dispatch_step :
    (cap : ℕ) (d : Dispatcher) (input : RenameBundle) (cp : Option Checkpoint)
    → input.valid ≡ true
    → Buffer.is_full cap d.rob ≡ false
    → Queue.is_full d.issue_queue ≡ false
    → dispatch cap d input cp
      ≡ enqueue d input (some d.rob.tail, (Buffer.allocate cap d.rob input cp).1)
unfolding dispatch
dispatch_step cap d input cp h f g =
    let rest : Bool × Dispatcher = enqueue d input (Buffer.allocate cap d.rob input cp) in
    let full : Bool = Buffer.is_full cap d.rob || Queue.is_full d.issue_queue in
    let room : full ≡ false = ap (λ b. b || Queue.is_full d.issue_queue) f ∙ g in
    ap (λ b. if not b then (true, d) else (if full then (false, d) else rest)) h
    ∙ ap (λ b. if b then (false, d) else rest) room
    ∙ ap (λ o. enqueue d input (o, (Buffer.allocate cap d.rob input cp).1))
        (rob_allocated cap d.rob input cp h f).0

-- A call with room for its instruction takes it into both structures and keeps both valid.
pub dispatch_takes :
    (cap : ℕ) (d : Dispatcher) (input : RenameBundle) (cp : Option Checkpoint)
    → IsValid cap d
    → Room cap (one_if input.valid) d
    → Took cap (one_if input.valid) d (dispatch cap d input cp)
      × IsValid cap (dispatch cap d input cp).1
dispatch_takes cap d input cp v room = elim (Bool-cases input.valid) [
  | inl h ↦
      let room1 : Room cap 1 d = subst (λ b. Room cap (one_if b) d) h room in
      let f : Buffer.is_full cap d.rob ≡ false = (let k = room1.0 in ground (arith, k)) in
      let g : Queue.is_full d.issue_queue ≡ false = (let k = room1.1 in ground (arith, k)) in
      let i = insert_counts d.issue_queue (make_issue_entry d.prf input d.rob.tail) v.queue_valid in
      let ok = i.0 ∙ lt→ltb _ _ (let k = room1.1 in omega (arith, k)) in
      subst (λ r. Took cap (one_if input.valid) d r × IsValid cap r.1)
        (sym (dispatch_step cap d input cp h f g ∙ enqueue-some d input d.rob.tail _))
        (
          record {
            accepted = ok;
            rob_count =
                (rob_allocated cap d.rob input cp h f).1 ∙ ap (λ b. d.rob.count + one_if b) (sym h);
            queue_count = i.3 ∙ ap (λ b. d.issue_queue.count + one_if b) (ok ∙ sym h);
            queue_length = i.2;
          },
          record { rob_valid = allocate-IsValid cap d.rob input cp v.rob_valid; queue_valid = i.1 },
        )
  | inr h ↦
      subst (λ r. Took cap (one_if input.valid) d r × IsValid cap r.1)
        (sym (dispatch_skip cap d input cp h))
        (
          record {
            accepted = refl;
            rob_count = plus_none d.rob.count h;
            queue_count = plus_none d.issue_queue.count h;
            queue_length = refl;
          },
          v,
        )
]
