-- ===== src/Cpu/Kept/Backend.antt =====
-- Commit and execution keep the core well formed.
use cpu_cpp.Base.{
  ℕ, zero, suc, ◌≤◌, refl, Option, none, some, List, [], ◌∷◌, arith, if_keeps, length,
}
use cpu_cpp.Rob.Buffer
use cpu_cpp.Rob.Complete.{complete-IsValid}
use cpu_cpp.Rob.Squash.{squash-IsValid}
use cpu_cpp.Memory.StoreBuffer.{StoreBuffer}
use cpu_cpp.Memory.StoreBuffer.Bounded
use cpu_cpp.Memory.LoadStoreQueue.Bounded as LoadBounded
use cpu_cpp.Issue.Queue
use cpu_cpp.Issue.Queue.{Entry}
use cpu_cpp.Issue.Counting
use cpu_cpp.Issue.Counting.{remove_counts, wakeup_counts}
use cpu_cpp.Retire.Unit
use cpu_cpp.Retire.Unit.{CommitEvent}
use cpu_cpp.Branch.Saturation
use cpu_cpp.Branch.Recovery
use cpu_cpp.Branch.Recovery.{BranchResult}
use cpu_cpp.Execute.Alu
use cpu_cpp.Execute.Branch
use cpu_cpp.Execute.Branch.{BranchHardware}
use cpu_cpp.Execute.Memory.Kept as MemoryKept
use cpu_cpp.Cpu.State.{Sizes, Cpu, Redirect}
use cpu_cpp.Cpu.Backend.{
  or_else, committer, committed, retire_event, retire_events, commit_stage, memory_unit,
  memory_stage, select_branch, recoverer, mispredict, note_branch, resolve_branch, branch_at,
  branch_stage, execute_alu, alu_at, alu_stage,
}
use cpu_cpp.Cpu.Parts.{IsValid, Kept, Kept-trans, Fits, step-Committable, recover-Recoverable}

module _ (sizes : Sizes) where
  abbrev cap : ℕ
  cap = sizes.rob_capacity

  fits :
      (n : ℕ) (o : Option StoreBuffer) (d : StoreBuffer)
      → Fits n o
      → length d ≤ n
      → length (or_else o d) ≤ n
  fits n none d h k = k
  fits n (some sb) d h k = h

  retire_event-Kept :
      (cpu : Cpu) (ev : CommitEvent) → IsValid sizes cpu → Kept sizes cpu (retire_event cpu ev)
  unfolding retire_event
  retire_event-Kept cpu ev v =
      let k = LoadBounded.length-remove cpu.lsq ev.rob_index in
      let p = Bounded.length-pop_committed cpu.store_buffer in
      record {
        valid = record {
          rob_valid = v.rob_valid;
          queue_valid = v.queue_valid;
          lsq_bounded = omega (arith, k, v.lsq_bounded);
          stores_bounded =
              if_keeps (λ (sb : StoreBuffer). length sb ≤ sizes.store_buffer_capacity) ev.store
                (omega (arith, p, v.stores_bounded)) v.stores_bounded;
          predictor_valid = v.predictor_valid;
        };
        clock = refl;
      }

  retire_events-Kept :
      (evs : List CommitEvent) (cpu : Cpu)
      → IsValid sizes cpu
      → Kept sizes cpu (retire_events evs cpu)
  unfolding retire_events
  retire_events-Kept [] cpu v = record { valid = v; clock = refl }
  retire_events-Kept (ev ∷ evs) cpu v =
      let k = retire_event-Kept cpu ev v in
      Kept-trans k (retire_events-Kept evs (retire_event cpu ev) k.valid)

  pub commit_stage-Kept :
      (cpu : Cpu) → IsValid sizes cpu → Kept sizes cpu (commit_stage sizes cpu).1
  unfolding commit_stage
  commit_stage-Kept cpu v =
      let r = Unit.step cap 2 (committer cpu) in
      let c =
        step-Committable cap sizes.store_buffer_capacity 2 (committer cpu)
          (record { rob_valid = v.rob_valid; stores_bounded = v.stores_bounded }) in
      let k = retire_events-Kept r.0 (committed cpu r.1) (record {
        rob_valid = c.rob_valid;
        queue_valid = v.queue_valid;
        lsq_bounded = v.lsq_bounded;
        stores_bounded =
            fits sizes.store_buffer_capacity r.1.store_buffer cpu.store_buffer c.stores_bounded
              v.stores_bounded;
        predictor_valid = v.predictor_valid;
      }) in
      record { valid = k.valid; clock = k.clock }

  pub memory_stage-Kept :
      (cpu : Cpu) → IsValid sizes cpu → Kept sizes cpu (memory_stage sizes cpu).1
  unfolding memory_stage
  memory_stage-Kept cpu v =
      let m =
        MemoryKept.execute-IsValid cap sizes.lsq_capacity sizes.store_buffer_capacity
          (memory_unit cpu)
          (record {
            rob_valid = v.rob_valid;
            queue_valid = v.queue_valid;
            lsq_bounded = v.lsq_bounded;
            stores_bounded = v.stores_bounded;
          }) in
      record {
        valid = record {
          rob_valid = m.rob_valid;
          queue_valid = m.queue_valid;
          lsq_bounded = m.lsq_bounded;
          stores_bounded = m.stores_bounded;
          predictor_valid = v.predictor_valid;
        };
        clock = refl;
      }

  mispredict-Kept :
      (result : BranchResult) (cpu : Cpu)
      → IsValid sizes cpu
      → Kept sizes cpu (mispredict sizes result cpu)
  unfolding mispredict
  mispredict-Kept result cpu v =
      let u = (Recovery.recover cap (recoverer cpu) result).1 in
      let indices = (Buffer.squash_younger_than cap u.rob result.rob_index).1 in
      let r =
        recover-Recoverable cap (recoverer cpu) result
          (record { rob_valid = v.rob_valid; queue_valid = v.queue_valid }) in
      let l = LoadBounded.length-squash cpu.lsq indices in
      let s = Bounded.length-squash cpu.store_buffer indices in
      record {
        valid = record {
          rob_valid = squash-IsValid cap u.rob result.rob_index r.rob_valid;
          queue_valid = r.queue_valid;
          lsq_bounded = omega (arith, l, v.lsq_bounded);
          stores_bounded = omega (arith, s, v.stores_bounded);
          predictor_valid = v.predictor_valid;
        };
        clock = refl;
      }

  note_branch-Kept :
      (result : BranchResult) (i : ℕ) (cpu : Cpu)
      → IsValid sizes cpu
      → Kept sizes cpu (note_branch sizes result i cpu)
  note_branch-Kept result i cpu v = record {
    valid = record {
      rob_valid = complete-IsValid cap cpu.rob i result.target_pc v.rob_valid;
      queue_valid = v.queue_valid;
      lsq_bounded = v.lsq_bounded;
      stores_bounded = v.stores_bounded;
      predictor_valid =
          Saturation.update-IsValid sizes.table_size cpu.predictor result.pc result.taken
            result.target_pc v.predictor_valid;
    };
    clock = refl;
  }

  resolve_branch-Kept :
      (result : BranchResult) (i : ℕ) (cpu : Cpu)
      → IsValid sizes cpu
      → Kept sizes cpu (resolve_branch sizes result i cpu).1
  unfolding resolve_branch
  resolve_branch-Kept result i cpu v =
      let cpu' = note_branch sizes result i cpu in
      let k = note_branch-Kept result i cpu v in
      if_keeps (λ (r : Redirect × Cpu). Kept sizes cpu r.1) result.mispredicted
        (Kept-trans k (mispredict-Kept result cpu' k.valid)) k

  -- An entry leaves the issue queue.
  abbrev without : Cpu → ℕ → Cpu
  without cpu i = record cpu { issue_queue = Queue.remove cpu.issue_queue i }

  without-Kept : (cpu : Cpu) (i : ℕ) → IsValid sizes cpu → Kept sizes cpu (without cpu i)
  without-Kept cpu i v = record {
    valid = record {
      rob_valid = v.rob_valid;
      queue_valid = (remove_counts cpu.issue_queue i v.queue_valid).0;
      lsq_bounded = v.lsq_bounded;
      stores_bounded = v.stores_bounded;
      predictor_valid = v.predictor_valid;
    };
    clock = refl;
  }

  branch_at-Kept :
      (hardware : BranchHardware) (cpu : Cpu) (o : Option (ℕ × Entry))
      → IsValid sizes cpu
      → Kept sizes cpu (branch_at sizes hardware cpu o).2
  unfolding branch_at
  branch_at-Kept hardware cpu none v = record { valid = v; clock = refl }
  branch_at-Kept hardware cpu (some (i, e)) v =
      let k = without-Kept cpu i v in
      Kept-trans k (
        resolve_branch-Kept (Branch.evaluate_entry hardware e e.predicted_taken e.predicted_target)
          e.rob_index (without cpu i) k.valid)

  pub branch_stage-Kept :
      (hardware : BranchHardware) (cpu : Cpu)
      → IsValid sizes cpu
      → Kept sizes cpu (branch_stage sizes hardware cpu).2
  unfolding branch_stage
  branch_stage-Kept hardware cpu v =
      branch_at-Kept hardware cpu (select_branch 0 cpu.issue_queue.entries) v

  execute_alu-Kept :
      (i : ℕ) (e : Entry) (cpu : Cpu)
      → IsValid sizes cpu
      → Kept sizes cpu (execute_alu sizes i e cpu)
  unfolding execute_alu
  execute_alu-Kept i e cpu v =
      let w = Alu.alu_result e.alu_operation (Alu.operand_a e) (Alu.operand_b e) in
      let q = (remove_counts cpu.issue_queue i v.queue_valid).0 in
      record {
        valid = record {
          rob_valid = complete-IsValid cap cpu.rob e.rob_index w v.rob_valid;
          queue_valid =
              if_keeps Counting.IsValid e.register_write
                (wakeup_counts (Queue.remove cpu.issue_queue i) e.physical_rd w q) q;
          lsq_bounded = v.lsq_bounded;
          stores_bounded = v.stores_bounded;
          predictor_valid = v.predictor_valid;
        };
        clock = refl;
      }

  alu_at-Kept :
      (later : Cpu → ℕ × Cpu)
      → ((cpu : Cpu) → IsValid sizes cpu → Kept sizes cpu (later cpu).1)
      → (cpu : Cpu) (o : Option (ℕ × Entry)) → IsValid sizes cpu
      → Kept sizes cpu (alu_at sizes later cpu o).1
  unfolding alu_at
  alu_at-Kept later k cpu none v = record { valid = v; clock = refl }
  alu_at-Kept later k cpu (some (i, e)) v =
      let x = execute_alu-Kept i e cpu v in Kept-trans x (k (execute_alu sizes i e cpu) x.valid)

  pub alu_stage-Kept :
      (n : ℕ) (cpu : Cpu) → IsValid sizes cpu → Kept sizes cpu (alu_stage sizes n cpu).1
  unfolding alu_stage
  alu_stage-Kept zero cpu v = record { valid = v; clock = refl }
  alu_stage-Kept (suc n) cpu v =
      alu_at-Kept (alu_stage sizes n) (alu_stage-Kept n) cpu
        (Alu.select_ready_alu_entry 0 cpu.issue_queue.entries) v
