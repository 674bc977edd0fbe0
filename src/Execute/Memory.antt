-- ===== src/Execute/Memory.antt =====
-- superscalar/core/execution/MemoryExecutionUnit.hpp: one load or store in a cycle, from the issue
-- queue through the load/store queue. `cap` is `ROBCapacity`.
pub mod Kept
use cpu_cpp.Base.{
  ℕ, ◌+◌, ◌%◌, ◌^◌, Bool, true, false, not, ◌&&◌, ◌||◌, Option, none, some, List, [], ◌∷◌,
  if◌then◌else◌,
}
use cpu_cpp.Rename.RegisterFile
use cpu_cpp.Rename.RegisterFile.{RegisterFile}
use cpu_cpp.Rob.Entry.{Entry as RobEntry}
use cpu_cpp.Rob.Buffer
use cpu_cpp.Rob.Buffer.{Buffer}
use cpu_cpp.Memory.StoreBuffer
use cpu_cpp.Memory.StoreBuffer.{StoreBuffer}
use cpu_cpp.Memory.LoadStoreQueue
use cpu_cpp.Memory.LoadStoreQueue.{LoadStoreQueue}
use cpu_cpp.Memory.DataMemory
use cpu_cpp.Memory.DataMemory.{DataMemory}
use cpu_cpp.Issue.Queue
use cpu_cpp.Issue.Queue.{Entry, IssueQueue}

pub record MemoryResult : Type 0 where
  pub valid : Bool
  pub is_load : Bool
  pub is_store : Bool
  pub rob_index : ℕ
  pub physical_rd : ℕ
  pub address : ℕ
  pub word : ℕ
  pub order_violation : Bool
  pub violating_load_rob_index : ℕ

-- What the unit's references lead to.
pub record MemoryUnit : Type 0 where
  pub rob : Buffer
  pub issue_queue : IssueQueue
  pub prf : RegisterFile
  pub lsq : LoadStoreQueue
  pub store_buffer : StoreBuffer
  pub data_memory : DataMemory

abbrev pub ready_for_memory_execution : Entry → Bool
ready_for_memory_execution e =
    e.valid && not e.issued && e.rs1_ready && e.rs2_ready && (e.memory_read || e.memory_write)

abbrev pub calculate_address : Entry → ℕ
calculate_address e = (e.rs1_value + e.immediate) % 2 ^ 32

-- `value_or(0)`
abbrev value_or_zero : Option ℕ → ℕ
value_or_zero none = 0
value_or_zero (some v) = v

-- The word of a load, from the queue or from the memory.
abbrev pub loaded_word : LoadStoreQueue.LoadResult → DataMemory → ℕ → ℕ
loaded_word fwd memory address =
    if fwd.hit then fwd.data_word else value_or_zero (DataMemory.read memory address)

-- The part of `write_back` after its checks.
unfoldable pub publish : ℕ → MemoryUnit → MemoryResult → MemoryUnit
publish cap u result = record u {
  prf = if result.is_load then RegisterFile.write u.prf result.physical_rd result.word else u.prf;
  issue_queue =
      if result.is_load
      then Queue.wakeup u.issue_queue result.physical_rd result.word
      else u.issue_queue;
  rob = Buffer.complete cap u.rob result.rob_index result.word;
}

-- The check of the reorder buffer's entry in `write_back`.
abbrev pub is_live : Option RobEntry → Bool
is_live none = false
is_live (some e) = e.valid

unfoldable pub write_back : ℕ → MemoryUnit → MemoryResult → MemoryUnit
unfolding publish
write_back cap u result =
    if not result.valid || not (is_live (Buffer.entry cap u.rob result.rob_index))
    then u
    else publish cap u result

-- The result of a load whose value is `word`.
abbrev pub load_result : Entry → ℕ → MemoryResult
load_result e word = record {
  valid = true;
  is_load = true;
  is_store = false;
  rob_index = e.rob_index;
  physical_rd = e.physical_rd;
  address = calculate_address e;
  word = word;
  order_violation = false;
  violating_load_rob_index = 0;
}

-- The load that runs: slot `i` holds `e`, and `word` is its value.
unfoldable pub finish_load : ℕ → MemoryUnit → ℕ → Entry → ℕ → List MemoryResult × MemoryUnit
unfolding write_back
finish_load cap u i e word =
    let lsq = (LoadStoreQueue.complete_load u.lsq e.rob_index word).1 in
    let u' : MemoryUnit = record u {
      issue_queue = Queue.remove u.issue_queue i;
      lsq = (LoadStoreQueue.mark_executed lsq e.rob_index).1;
    } in
    (load_result e word ∷ [], write_back cap u' (load_result e word))

-- `process_load`, which no other function of the unit calls.
unfoldable pub process_load : MemoryUnit → Entry → MemoryResult × MemoryUnit
process_load u e =
    let address = calculate_address e in
    let lsq1 = (LoadStoreQueue.set_address u.lsq e.rob_index address).1 in
    let word = loaded_word (LoadStoreQueue.execute_load lsq1 e.rob_index) u.data_memory address in
    let lsq2 = (LoadStoreQueue.complete_load lsq1 e.rob_index word).1 in
    (load_result e word, record u { lsq = (LoadStoreQueue.mark_executed lsq2 e.rob_index).1 })

-- `process_store`
unfoldable pub process_store : MemoryUnit → Entry → MemoryResult × MemoryUnit
process_store u e =
    let address = calculate_address e in
    let lsq1 = (LoadStoreQueue.set_address u.lsq e.rob_index address).1 in
    let lsq2 = (LoadStoreQueue.set_store_data lsq1 e.rob_index e.rs2_value).1 in
    let violation = LoadStoreQueue.check_order_violation lsq2 e.rob_index in
    (
      record {
        valid = true;
        is_load = false;
        is_store = true;
        rob_index = e.rob_index;
        physical_rd = 0;
        address = address;
        word = e.rs2_value;
        order_violation = violation.violation;
        violating_load_rob_index =
            if violation.violation then violation.violating_load_rob_index else 0;
      },
      record u {
        lsq = (LoadStoreQueue.mark_executed lsq2 e.rob_index).1;
        store_buffer = (StoreBuffer.update u.store_buffer e.rob_index address e.rs2_value).1;
      },
    )

-- The store that runs, from slot `i`.
unfoldable pub finish_store : ℕ → MemoryUnit → ℕ → Entry → List MemoryResult × MemoryUnit
unfolding process_store write_back
finish_store cap u i e =
    let (result, u') = process_store (record u { issue_queue = Queue.remove u.issue_queue i }) e in
    (result ∷ [], write_back cap u' result)

-- The state after a load has told the queue its address.
abbrev pub addressed : MemoryUnit → Entry → MemoryUnit
addressed u e = record u {
  lsq = (LoadStoreQueue.set_address u.lsq e.rob_index (calculate_address e)).1;
}

-- The loop of `execute` over the slots from `i` on. A load that must wait leaves its address behind.
unfoldable pub execute_from : ℕ → ℕ → List Entry → MemoryUnit → List MemoryResult × MemoryUnit
unfolding finish_load finish_store
execute_from cap i [] u = ([], u)
execute_from cap i (e ∷ es) u =
    let loads = ready_for_memory_execution e && e.memory_read in
    let stores = ready_for_memory_execution e && not e.memory_read && e.memory_write in
    let u' = if loads then addressed u e else u in
    let fwd = LoadStoreQueue.execute_load u'.lsq e.rob_index in
    let later = execute_from cap (i + 1) es u' in
    if loads && not fwd.must_wait
    then finish_load cap u' i e (loaded_word fwd u'.data_memory (calculate_address e))
    else (if stores then finish_store cap u i e else later)

unfoldable pub execute : ℕ → MemoryUnit → List MemoryResult × MemoryUnit
unfolding execute_from
execute cap u = execute_from cap 0 u.issue_queue.entries u
