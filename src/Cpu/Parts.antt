-- ===== src/Cpu/Parts.antt =====
-- What the core keeps well formed, and how commit, the branch stage's recovery and the dispatch
-- unit keep their parts of it.
use cpu_cpp.Base.{
  ℕ, zero, suc, ◌≤◌, ◌≡◌, ◌∙◌, Bool, not, ◌||◌, Option, none, some, List, arith, if_keeps, length,
}
use mathlib.Core.Option
use cpu_cpp.Rename.AliasTable.{Checkpoint, restore_from}
use cpu_cpp.Rename.Bundle.{RenameBundle}
use cpu_cpp.Rob.Entry.{Entry}
use cpu_cpp.Rob.Buffer
use cpu_cpp.Rob.Buffer.{Buffer}
use cpu_cpp.Rob.Contents
use cpu_cpp.Rob.Allocate.{allocate-IsValid}
use cpu_cpp.Rob.Commit.{commit-IsValid}
use cpu_cpp.Rob.Squash.{squash-IsValid}
use cpu_cpp.Memory.StoreBuffer
use cpu_cpp.Memory.StoreBuffer.{StoreBuffer}
use cpu_cpp.Memory.StoreBuffer.Bounded.{length-mark_committed}
use cpu_cpp.Issue.Queue
use cpu_cpp.Issue.Counting
use cpu_cpp.Issue.Counting.{insert_counts, squash_counts}
use cpu_cpp.Issue.Dispatch
use cpu_cpp.Issue.Dispatch.{Dispatcher, enqueue}
use cpu_cpp.Retire.Unit
use cpu_cpp.Retire.Unit.{CommitEvent, Committer, finish_round, head_completed, retire}
use cpu_cpp.Branch.Saturation
use cpu_cpp.Branch.Recovery
use cpu_cpp.Branch.Recovery.{BranchResult, Recoverer, discard, restore_and_discard, recover_at}
use cpu_cpp.Cpu.State.{Sizes, Cpu}

-- The reorder buffer is well formed, the issue queue's count is right, the memory queues are
-- within their capacities, and the predictor's tables have their sizes and two-bit counters.
pub record IsValid (sizes : Sizes) (cpu : Cpu) : Type 0 where
  pub rob_valid : Contents.IsValid sizes.rob_capacity cpu.rob
  pub queue_valid : Counting.IsValid cpu.issue_queue
  pub lsq_bounded : length cpu.lsq ≤ sizes.lsq_capacity
  pub stores_bounded : length cpu.store_buffer ≤ sizes.store_buffer_capacity
  pub predictor_valid : Saturation.IsValid sizes.table_size cpu.predictor

-- A stage's effect on the whole: the state stays valid and the cycle counter still.
pub record Kept (sizes : Sizes) (cpu cpu' : Cpu) : Type 0 where
  pub valid : IsValid sizes cpu'
  pub clock : cpu'.cycles ≡ cpu.cycles

-- Stages in sequence.
pub Kept-trans : {sizes : Sizes} {a b c : Cpu} → Kept sizes a b → Kept sizes b c → Kept sizes a c
Kept-trans p q = record { valid = q.valid; clock = q.clock ∙ p.clock }

-- The store buffer of the commit unit, where there is one, within its capacity.
abbrev pub Fits : ℕ → Option StoreBuffer → Type 0
Fits n none = Unit
Fits n (some sb) = length sb ≤ n

module _ (cap : ℕ) where
  pub record Committable (n : ℕ) (u : Committer) : Type 0 where
    pub rob_valid : Contents.IsValid cap u.rob
    pub stores_bounded : Fits n u.store_buffer

  marked :
      (n i : ℕ) (o : Option StoreBuffer)
      → Fits n o
      → Fits n (Option.map (λ sb. (StoreBuffer.mark_committed sb i).1) o)
  marked n i none h = h
  marked n i (some sb) h = let k = length-mark_committed sb i in omega (arith, k, h)

  retire-Committable :
      (n : ℕ) (u : Committer) (e : Entry) → Committable n u → Committable n (retire u e)
  unfolding retire
  retire-Committable n u e v = record {
    rob_valid = v.rob_valid;
    stores_bounded =
        if_keeps (Fits n) e.memory_write (marked n e.rob_index u.store_buffer v.stores_bounded)
          v.stores_bounded;
  }

  round-Committable :
      (n : ℕ) (later : Committer → List CommitEvent × Committer)
      → ((u : Committer) → Committable n u → Committable n (later u).1)
      → (u : Committer) (r : Option Entry × Buffer) → Committable n u
      → Contents.IsValid cap r.1
      → Committable n (finish_round later u r).1
  unfolding finish_round
  round-Committable n later k u (none, rob) v w = record {
    rob_valid = w;
    stores_bounded = v.stores_bounded;
  }
  round-Committable n later k u (some e, rob) v w =
      let u' = retire (record u { rob = rob }) e in
      let v' =
        retire-Committable n (record u { rob = rob }) e
          (record { rob_valid = w; stores_bounded = v.stores_bounded }) in
      if_keeps (λ (r : List CommitEvent × Committer). Committable n r.1) u'.halted v' (k u' v')

  pub step-Committable :
      (n rounds : ℕ) (u : Committer) → Committable n u → Committable n (Unit.step cap rounds u).1
  unfolding Unit.step
  step-Committable n zero u v = v
  step-Committable n (suc rounds) u v =
      if_keeps (λ (r : List CommitEvent × Committer). Committable n r.1)
        (Buffer.is_empty u.rob || not (head_completed (Buffer.head_entry u.rob))) v
        (round-Committable n (Unit.step cap rounds) (step-Committable n rounds) u
          (Buffer.commit cap u.rob) v (commit-IsValid cap u.rob v.rob_valid))

  pub record Recoverable (u : Recoverer) : Type 0 where
    pub rob_valid : Contents.IsValid cap u.rob
    pub queue_valid : Counting.IsValid u.issue_queue

  discard-Recoverable :
      (u : Recoverer) (result : BranchResult)
      → Recoverable u
      → Recoverable (discard u result (Buffer.squash_younger_than cap u.rob result.rob_index))
  unfolding discard
  discard-Recoverable u result v = record {
    rob_valid = squash-IsValid cap u.rob result.rob_index v.rob_valid;
    queue_valid =
        (squash_counts u.issue_queue (Buffer.squash_younger_than cap u.rob result.rob_index).1
          v.queue_valid).0;
  }

  restore-Recoverable :
      (u : Recoverer) (result : BranchResult) (o : Option Checkpoint)
      → Recoverable u
      → Recoverable (restore_and_discard cap u result o).1
  unfolding restore_and_discard
  restore-Recoverable u result none v = v
  restore-Recoverable u result (some cp) v =
      let u' : Recoverer = record u { rat = restore_from u.rat cp } in
      if_keeps (λ (r : Bool × Recoverer). Recoverable r.1) (not cp.valid) v
        (discard-Recoverable u' result
          (record { rob_valid = v.rob_valid; queue_valid = v.queue_valid }))

  at-Recoverable :
      (u : Recoverer) (result : BranchResult) (o : Option Entry)
      → Recoverable u
      → Recoverable (recover_at cap u result o).1
  unfolding recover_at
  at-Recoverable u result none v = v
  at-Recoverable u result (some e) v =
      if_keeps (λ (r : Bool × Recoverer). Recoverable r.1) (not e.valid) v
        (restore-Recoverable u result (Recovery.checkpoint_for u.rat e) v)

  pub recover-Recoverable :
      (u : Recoverer) (result : BranchResult)
      → Recoverable u
      → Recoverable (Recovery.recover cap u result).1
  unfolding Recovery.recover
  recover-Recoverable u result v =
      let u' : Recoverer = record u { control = Recovery.no_control } in
      let v' : Recoverable u' = record { rob_valid = v.rob_valid; queue_valid = v.queue_valid } in
      if_keeps (λ (r : Bool × Recoverer). Recoverable r.1)
        (not result.valid || not result.mispredicted) v'
        (at-Recoverable u' result (Buffer.entry cap u.rob result.rob_index) v')

  pub record Dispatchable (d : Dispatcher) : Type 0 where
    pub rob_valid : Contents.IsValid cap d.rob
    pub queue_valid : Counting.IsValid d.issue_queue

  enqueue-Dispatchable :
      (d : Dispatcher) (bundle : RenameBundle) (r : Option ℕ × Buffer)
      → Dispatchable d
      → Contents.IsValid cap r.1
      → Dispatchable (enqueue d bundle r).1
  unfolding enqueue
  enqueue-Dispatchable d bundle (none, rob) v w = record {
    rob_valid = w;
    queue_valid = v.queue_valid;
  }
  enqueue-Dispatchable d bundle (some i, rob) v w = record {
    rob_valid = w;
    queue_valid =
        (insert_counts d.issue_queue (Dispatch.make_issue_entry d.prf bundle i) v.queue_valid).1;
  }

  pub dispatch-Dispatchable :
      (d : Dispatcher) (bundle : RenameBundle) (cp : Option Checkpoint)
      → Dispatchable d
      → Dispatchable (Dispatch.dispatch cap d bundle cp).1
  unfolding Dispatch.dispatch
  dispatch-Dispatchable d bundle cp v =
      if_keeps (λ (r : Bool × Dispatcher). Dispatchable r.1) (not bundle.valid) v
        (if_keeps (λ (r : Bool × Dispatcher). Dispatchable r.1)
          (Buffer.is_full cap d.rob || Queue.is_full d.issue_queue) v
          (enqueue-Dispatchable d bundle (Buffer.allocate cap d.rob bundle cp) v
            (allocate-IsValid cap d.rob bundle cp v.rob_valid)))
