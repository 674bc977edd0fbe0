-- ===== src/Rob/Trace.antt =====
-- Sequences of calls of superscalar/core/dispatch/ReOrderBuffer.hpp and of the specification.
use cpu_cpp.Base.{ℕ, ◌<◌, ◌≡◌, refl, ap, ◌∙◌, Option, List, [], ◌∷◌}
use mathlib.Core.Path.{ap₂}
use cpu_cpp.Rename.AliasTable.{Checkpoint}
use cpu_cpp.Rename.Bundle.{RenameBundle}
use cpu_cpp.Rob.Entry.{Entry}
use cpu_cpp.Rob.Buffer
use cpu_cpp.Rob.Buffer.{Buffer}
use cpu_cpp.Rob.Contents.{IsValid}
use cpu_cpp.Rob.Queue
use cpu_cpp.Rob.Queue.{Queue, view}
use cpu_cpp.Rob.Allocate.{reset-IsValid, allocate-IsValid, allocate_refines}
use cpu_cpp.Rob.Complete.{complete-IsValid, complete_refines}
use cpu_cpp.Rob.Commit.{commit-IsValid, commit_refines}
use cpu_cpp.Rob.Squash.{squash-IsValid, squash_refines}

-- What the rest of the processor asks of the buffer.
pub data Call : Type 0 where
  allocate : RenameBundle → Option Checkpoint → Call
  complete : ℕ → ℕ → Call
  commit : Call
  squash : ℕ → Call

-- What it sees of each call.
pub data Reply : Type 0 where
  index : Option ℕ → Reply
  done : Reply
  committed : Option Entry → Reply
  squashed : List Entry → Reply

module _ (cap : ℕ) where
  pub answer : Buffer → Call → Reply × Buffer
  answer rob (allocate b cp) = let (i, rob') = Buffer.allocate cap rob b cp in (index i, rob')
  answer rob (complete i v) = (done, Buffer.complete cap rob i v)
  answer rob commit = let (e, rob') = Buffer.commit cap rob in (committed e, rob')
  answer rob (squash i) = let r = Buffer.squash_younger_than cap rob i in (squashed r.0, r.2)

  pub answer_queue : Queue → Call → Reply × Queue
  answer_queue q (allocate b cp) = let (i, q') = Queue.allocate cap q b cp in (index i, q')
  answer_queue q (complete i v) = (done, Queue.complete q i v)
  answer_queue q commit = let (e, q') = Queue.commit cap q in (committed e, q')
  answer_queue q (squash i) = let (gone, q') = Queue.squash_younger_than q i in (squashed gone, q')

  pub run : Buffer → List Call → List Reply
  run rob [] = []
  run rob (c ∷ cs) = let (r, rob') = answer rob c in r ∷ run rob' cs

  pub run_queue : Queue → List Call → List Reply
  run_queue q [] = []
  run_queue q (c ∷ cs) = let (r, q') = answer_queue q c in r ∷ run_queue q' cs

  answer-IsValid : (rob : Buffer) (c : Call) → IsValid cap rob → IsValid cap (answer rob c).1
  unfolding answer
  answer-IsValid rob (allocate b cp) v = allocate-IsValid cap rob b cp v
  answer-IsValid rob (complete i r) v = complete-IsValid cap rob i r v
  answer-IsValid rob commit v = commit-IsValid cap rob v
  answer-IsValid rob (squash i) v = squash-IsValid cap rob i v

  answer_refines :
      (rob : Buffer) (c : Call)
      → IsValid cap rob
      → (let (r, rob') = answer rob c in (r, view cap rob')) ≡ answer_queue (view cap rob) c
  unfolding answer answer_queue
  answer_refines rob (allocate b cp) v =
      ap (λ p. (index p.0, p.1)) (allocate_refines cap rob b cp v)
  answer_refines rob (complete i r) v = ap (λ q. (done, q)) (complete_refines cap rob i r v)
  answer_refines rob commit v = ap (λ p. (committed p.0, p.1)) (commit_refines cap rob v)
  answer_refines rob (squash i) v = ap (λ p. (squashed p.0, p.1)) (squash_refines cap rob i v).0

  -- From a well-formed buffer, every sequence of calls gets the answers of the queue that the buffer
  -- holds.
  pub run_refines :
      (rob : Buffer) (cs : List Call) → IsValid cap rob → run rob cs ≡ run_queue (view cap rob) cs
  unfolding run run_queue
  run_refines rob [] v = refl
  run_refines rob (c ∷ cs) v =
      let same = answer_refines rob c v in
      ap₂ ◌∷◌ (ap (λ p. p.0) same)
        (run_refines (answer rob c).1 cs (answer-IsValid rob c v) ∙ ap (λ p. run_queue p.1 cs) same)

  -- From a reset of a buffer with at least one place on, every sequence of calls gets the answers
  -- of the bounded queue.
  pub reset-run :
      (cs : List Call)
      → 0 < cap
      → run (Buffer.reset cap) cs ≡ run_queue (record { first = 0; items = [] }) cs
  unfolding Buffer.reset
  reset-run cs p = run_refines (Buffer.reset cap) cs (reset-IsValid cap p).0
