-- ===== src/Execute/Memory/Kept.antt =====
-- The memory execution keeps the queues and the reorder buffer well formed.
use cpu_cpp.Base.{
  ℕ, ◌+◌, ◌≤◌, not, ◌&&◌, ◌||◌, List, [], ◌∷◌, arith, if◌then◌else◌, if_keeps, length,
}
use cpu_cpp.Rob.Contents
use cpu_cpp.Rob.Complete.{complete-IsValid}
use cpu_cpp.Rob.Buffer
use cpu_cpp.Memory.LoadStoreQueue
use cpu_cpp.Memory.LoadStoreQueue.Bounded.{
  length-set_address, length-set_store_data, length-complete_load, length-mark_executed,
}
use cpu_cpp.Memory.StoreBuffer.Bounded.{length-update}
use cpu_cpp.Issue.Queue
use cpu_cpp.Issue.Queue.{Entry}
use cpu_cpp.Issue.Counting
use cpu_cpp.Issue.Counting.{remove_counts, wakeup_counts}
use cpu_cpp.Execute.Memory.{
  MemoryResult, MemoryUnit, publish, is_live, load_result, write_back, finish_load, process_store,
  finish_store, addressed, execute_from, execute, calculate_address, loaded_word,
  ready_for_memory_execution,
}

module _ (cap lsq_cap store_cap : ℕ) where
  -- A well-formed reorder buffer, a right count in the issue queue, and the two memory queues
  -- within their capacities.
  pub record IsValid (u : MemoryUnit) : Type 0 where
    pub rob_valid : Contents.IsValid cap u.rob
    pub queue_valid : Counting.IsValid u.issue_queue
    pub lsq_bounded : length u.lsq ≤ lsq_cap
    pub stores_bounded : length u.store_buffer ≤ store_cap

  publish-IsValid : (u : MemoryUnit) (r : MemoryResult) → IsValid u → IsValid (publish cap u r)
  unfolding publish
  publish-IsValid u r v = record {
    rob_valid = complete-IsValid cap u.rob r.rob_index r.word v.rob_valid;
    queue_valid =
        if_keeps Counting.IsValid r.is_load
          (wakeup_counts u.issue_queue r.physical_rd r.word v.queue_valid) v.queue_valid;
    lsq_bounded = v.lsq_bounded;
    stores_bounded = v.stores_bounded;
  }

  write_back-IsValid :
      (u : MemoryUnit) (r : MemoryResult) → IsValid u → IsValid (write_back cap u r)
  unfolding write_back
  write_back-IsValid u r v =
      if_keeps IsValid (not r.valid || not (is_live (Buffer.entry cap u.rob r.rob_index))) v
        (publish-IsValid u r v)

  addressed-IsValid : (u : MemoryUnit) (e : Entry) → IsValid u → IsValid (addressed u e)
  addressed-IsValid u e v =
      let k = length-set_address u.lsq e.rob_index (calculate_address e) in
      record {
        rob_valid = v.rob_valid;
        queue_valid = v.queue_valid;
        lsq_bounded = omega (arith, k, v.lsq_bounded);
        stores_bounded = v.stores_bounded;
      }

  finish_load-IsValid :
      (u : MemoryUnit) (i : ℕ) (e : Entry) (w : ℕ) → IsValid u → IsValid (finish_load cap u i e w).1
  unfolding finish_load
  finish_load-IsValid u i e w v =
      let lsq = (LoadStoreQueue.complete_load u.lsq e.rob_index w).1 in
      let k = length-complete_load u.lsq e.rob_index w in
      let l = length-mark_executed lsq e.rob_index in
      write_back-IsValid
        (record u {
          issue_queue = Queue.remove u.issue_queue i;
          lsq = (LoadStoreQueue.mark_executed lsq e.rob_index).1;
        })
        (load_result e w)
        (record {
          rob_valid = v.rob_valid;
          queue_valid = (remove_counts u.issue_queue i v.queue_valid).0;
          lsq_bounded = omega (arith, k, l, v.lsq_bounded);
          stores_bounded = v.stores_bounded;
        })

  process_store-IsValid : (u : MemoryUnit) (e : Entry) → IsValid u → IsValid (process_store u e).1
  unfolding process_store
  process_store-IsValid u e v =
      let address = calculate_address e in
      let lsq1 = (LoadStoreQueue.set_address u.lsq e.rob_index address).1 in
      let lsq2 = (LoadStoreQueue.set_store_data lsq1 e.rob_index e.rs2_value).1 in
      let k = length-set_address u.lsq e.rob_index address in
      let l = length-set_store_data lsq1 e.rob_index e.rs2_value in
      let m = length-mark_executed lsq2 e.rob_index in
      let s = length-update u.store_buffer e.rob_index address e.rs2_value in
      record {
        rob_valid = v.rob_valid;
        queue_valid = v.queue_valid;
        lsq_bounded = omega (arith, k, l, m, v.lsq_bounded);
        stores_bounded = omega (arith, s, v.stores_bounded);
      }

  finish_store-IsValid :
      (u : MemoryUnit) (i : ℕ) (e : Entry) → IsValid u → IsValid (finish_store cap u i e).1
  unfolding finish_store
  finish_store-IsValid u i e v =
      let u' : MemoryUnit = record u { issue_queue = Queue.remove u.issue_queue i } in
      write_back-IsValid (process_store u' e).1 (process_store u' e).0 (
        process_store-IsValid u' e (record {
          rob_valid = v.rob_valid;
          queue_valid = (remove_counts u.issue_queue i v.queue_valid).0;
          lsq_bounded = v.lsq_bounded;
          stores_bounded = v.stores_bounded;
        }))

  execute_from-IsValid :
      (i : ℕ) (es : List Entry) (u : MemoryUnit) → IsValid u → IsValid (execute_from cap i es u).1
  unfolding execute_from
  execute_from-IsValid i [] u v = v
  execute_from-IsValid i (e ∷ es) u v =
      let loads = ready_for_memory_execution e && e.memory_read in
      let u' = if loads then addressed u e else u in
      let fwd = LoadStoreQueue.execute_load u'.lsq e.rob_index in
      let v' = if_keeps IsValid loads (addressed-IsValid u e v) v in
      if_keeps (λ (r : List MemoryResult × MemoryUnit). IsValid r.1) (loads && not fwd.must_wait)
        (finish_load-IsValid u' i e (loaded_word fwd u'.data_memory (calculate_address e)) v')
        (if_keeps (λ (r : List MemoryResult × MemoryUnit). IsValid r.1)
          (ready_for_memory_execution e && not e.memory_read && e.memory_write)
          (finish_store-IsValid u i e v) (execute_from-IsValid (i + 1) es u' v'))

  pub execute-IsValid : (u : MemoryUnit) → IsValid u → IsValid (execute cap u).1
  unfolding execute
  execute-IsValid u v = execute_from-IsValid 0 u.issue_queue.entries u v
