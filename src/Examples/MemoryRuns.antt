-- ===== src/Examples/MemoryRuns.antt =====
-- A cache of two lines of two words before eight words of memory, and short queues of memory
-- operations.
use cpu_cpp.Base.{
  ℕ, ◌/◌, ◌<◌, ◌≡◌, refl, ◌⊎◌, true, false, not, ◌&&◌, none, some, List, [], ◌∷◌, arith, ◌==◌,
  if◌then◌else◌, length, get_or, All, keep, contains,
}
use mathlib.Core.List.{reverse}
use cpu_cpp.First.{IsFirst}
use cpu_cpp.Memory.DataMemory.{DataMemory}
use cpu_cpp.Memory.DataCache
use cpu_cpp.Memory.DataCache.{DataCache}
use cpu_cpp.Memory.DataCache.View
use cpu_cpp.Memory.DataCache.View.{view}
use cpu_cpp.Memory.DataCache.Access.{read-view}
use cpu_cpp.Memory.DataCache.Write.{write-view}
use cpu_cpp.Memory.DataCache.Flush.{flush-view}
use cpu_cpp.Memory.DataCache.Transparent.{
  Access, Agrees, run_cache, run_memory, reset-Agrees, run_transparent,
}
use cpu_cpp.Memory.LoadStoreQueue
use cpu_cpp.Memory.LoadStoreQueue.{
  OpType, LoadStoreQueue, new_entry, find, execute_load, check_order_violation, no_result,
  no_violation,
}
use cpu_cpp.Memory.LoadStoreQueue.Ordering.{
  Position, conflicts, answer_of, premature, violation_of, execute_load_lem,
  check_order_violation_lem,
}
use cpu_cpp.Memory.LoadStoreQueue.Squash.{squash_leaves}
use cpu_cpp.Memory.StoreBuffer
use cpu_cpp.Memory.StoreBuffer.{StoreBuffer, forward}
use cpu_cpp.Memory.StoreBuffer.Forward.{is_match, word_of, forward_lem, squash_keeps_committed}

abbrev eight_words : DataMemory
eight_words = 10 ∷ 11 ∷ 12 ∷ 13 ∷ 14 ∷ 15 ∷ 16 ∷ 17 ∷ []

abbrev cold : DataCache
cold = DataCache.reset 2 2 eight_words

cold-Agrees : Agrees 2 2 cold eight_words
cold-Agrees = reset-Agrees 2 2 eight_words (omega arith) (omega arith) (omega arith)

cold_length : length cold.memory ≡ 8
unfolding DataCache.reset
cold_length = refl

abbrev accesses : List Access
accesses =
    Access.store 4 99 ∷ Access.load 20 ∷ Access.load 4 ∷ Access.store 400 5 ∷ Access.load 12 ∷ []

run_transparent_example : run_cache 2 2 cold accesses ≡ run_memory eight_words accesses
run_transparent_example = run_transparent 2 2 accesses cold eight_words cold-Agrees

reset-Agrees_example : Agrees 2 2 cold eight_words
reset-Agrees_example = reset-Agrees 2 2 eight_words (omega arith) (omega arith) (omega arith)

read-view_example :
    let (word, c) = DataCache.read 2 2 cold 20 in
    (word ≡ some (view 2 2 cold (20 / 4)))
    × View.IsValid 2 2 c
    × (length c.memory ≡ length cold.memory)
    × ((b : ℕ) → b < length cold.memory → view 2 2 c b ≡ view 2 2 cold b)
read-view_example = read-view 2 2 cold 20 cold-Agrees.valid (omega (arith, cold_length))

write-view_example :
    let (done, c) = DataCache.write 2 2 cold 20 99 in
    (done ≡ true)
    × View.IsValid 2 2 c
    × (length c.memory ≡ length cold.memory)
    × ((b : ℕ)
        → b < length cold.memory
        → view 2 2 c b ≡ (if 20 / 4 == b then 99 else view 2 2 cold b))
write-view_example = write-view 2 2 cold 20 99 cold-Agrees.valid (omega (arith, cold_length))

abbrev dirty : DataCache
dirty = (DataCache.write 2 2 cold 20 99).1

dirty-IsValid : View.IsValid 2 2 dirty
dirty-IsValid = (write-view 2 2 cold 20 99 cold-Agrees.valid (omega (arith, cold_length))).1

flush-view_example :
    View.IsValid 2 2 (DataCache.flush 2 2 dirty)
    × ((a : ℕ)
        → a < length dirty.memory
        → (get_or (DataCache.flush 2 2 dirty).memory a 0 ≡ view 2 2 dirty a)
          × (view 2 2 (DataCache.flush 2 2 dirty) a ≡ view 2 2 dirty a))
flush-view_example = flush-view 2 2 dirty dirty-IsValid

abbrev old_store : LoadStoreQueue.Entry
old_store = record (new_entry OpType.store 1 100 0) {
  address_valid = true;
  address = 8;
  data_valid = true;
  data_word = 42;
}

abbrev unknown_store : LoadStoreQueue.Entry
unknown_store = new_entry OpType.store 2 104 0

abbrev early_load : LoadStoreQueue.Entry
early_load = record (new_entry OpType.load 3 108 20) {
  address_valid = true;
  address = 8;
  executed = true;
}

abbrev operations : LoadStoreQueue
operations = old_store ∷ unknown_store ∷ early_load ∷ []

find_load : find operations 3 ≡ some early_load
unfolding find
find_load = refl

find_store : find operations 1 ≡ some old_store
unfolding find
find_store = refl

execute_load_lem_example :
    (p : Position operations 3 early_load) × (((store : LoadStoreQueue.Entry) × IsFirst
          (conflicts 8)
          p.older
          store
        × (execute_load operations 3 ≡ answer_of store))
      ⊎ (All (λ s. conflicts 8 s ≡ false) p.older × (execute_load operations 3 ≡ no_result)))
execute_load_lem_example = execute_load_lem operations 3 early_load find_load refl

check_order_violation_lem_example :
    (p : Position operations 1 old_store) × (((l : LoadStoreQueue.Entry) × IsFirst
          (premature 8)
          p.younger
          l
        × (check_order_violation operations 1 ≡ violation_of l))
      ⊎ (All (λ l. premature 8 l ≡ false) p.younger
          × (check_order_violation operations 1 ≡ no_violation)))
check_order_violation_lem_example = check_order_violation_lem operations 1 old_store find_store refl

squash_leaves_example :
    LoadStoreQueue.squash operations (2 ∷ 3 ∷ [])
    ≡ keep (λ e. not (e.valid && contains e.rob_index (2 ∷ 3 ∷ []))) operations
squash_leaves_example = squash_leaves (2 ∷ 3 ∷ []) operations

abbrev stores : StoreBuffer
stores =
    record (StoreBuffer.blank) {
      valid = true;
      rob_index = 1;
      address = 8;
      data_word = 42;
      address_ready = true;
      data_ready = true;
      committed = true;
    }
    ∷ record (StoreBuffer.blank) {
      valid = true;
      rob_index = 2;
      address = 8;
      data_word = 43;
      address_ready = true;
      data_ready = true;
    }
    ∷ []

forward_lem_example :
    ((e : StoreBuffer.Entry) × IsFirst (is_match 8) (reverse stores) e
      × (forward stores 8 ≡ word_of e))
    ⊎ (All (λ e. is_match 8 e ≡ false) (reverse stores) × (forward stores 8 ≡ none))
forward_lem_example = forward_lem stores 8

squash_keeps_committed_example :
    StoreBuffer.squash stores (1 ∷ 2 ∷ [])
    ≡ keep (λ e. not (e.valid && not e.committed && contains e.rob_index (1 ∷ 2 ∷ []))) stores
squash_keeps_committed_example = squash_keeps_committed (1 ∷ 2 ∷ []) stores
