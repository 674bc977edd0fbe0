-- ===== src/Examples/RobRuns.antt =====
-- superscalar/core/dispatch/ReOrderBuffer.hpp with four entries, and a commit cycle.
use cpu_cpp.Base.{◌≡◌, true, false, none, List, [], ◌∷◌, map, arith, replicate}
use cpu_cpp.Rename.Bundle.{RenameBundle, blank_rename}
use cpu_cpp.Rob.Buffer
use cpu_cpp.Rob.Buffer.{Buffer}
use cpu_cpp.Rob.Contents.{IsValid}
use cpu_cpp.Rob.Queue
use cpu_cpp.Rob.Queue.{view}
use cpu_cpp.Rob.Sweep.{place_of}
use cpu_cpp.Rob.Allocate.{reset-IsValid, allocate-IsValid, allocate_refines}
use cpu_cpp.Rob.Complete.{complete-IsValid, complete_refines}
use cpu_cpp.Rob.Commit.{commit_refines}
use cpu_cpp.Rob.Squash.{squash_refines, squash_twice}
use cpu_cpp.Rob.Trace.{Call, run, run_queue, reset-run}
use cpu_cpp.Retire.Unit
use cpu_cpp.Retire.Unit.{Committer}
use cpu_cpp.Retire.InOrder.{Retired, step_in_order}

abbrev bundle : RenameBundle
bundle = record blank_rename {
  valid = true;
  pc = 4;
  rd = 3;
  physical_rd = 20;
  old_physical_rd = 3;
  register_write = true;
}

abbrev empty_rob : Buffer
empty_rob = Buffer.reset 4

empty_rob-IsValid : IsValid 4 empty_rob
empty_rob-IsValid = (reset-IsValid 4 (omega arith)).0

abbrev one_entry : Buffer
one_entry = (Buffer.allocate 4 empty_rob bundle none).1

one_entry-IsValid : IsValid 4 one_entry
one_entry-IsValid = allocate-IsValid 4 empty_rob bundle none empty_rob-IsValid

abbrev two_entries : Buffer
two_entries = (Buffer.allocate 4 one_entry bundle none).1

two_entries-IsValid : IsValid 4 two_entries
two_entries-IsValid = allocate-IsValid 4 one_entry bundle none one_entry-IsValid

abbrev one_done : Buffer
one_done = Buffer.complete 4 two_entries 0 77

one_done-IsValid : IsValid 4 one_done
one_done-IsValid = complete-IsValid 4 two_entries 0 77 two_entries-IsValid

abbrev calls : List Call
calls =
    Call.allocate bundle none
    ∷ Call.allocate bundle none
    ∷ Call.allocate bundle none
    ∷ Call.complete 0 77
    ∷ Call.commit
    ∷ Call.squash 1
    ∷ Call.commit
    ∷ []

reset-run_example :
    run 4 (Buffer.reset 4) calls ≡ run_queue 4 (record { first = 0; items = [] }) calls
reset-run_example = reset-run 4 calls (omega arith)

allocate_refines_example :
    (let (i, rob) = Buffer.allocate 4 one_entry bundle none in (i, view 4 rob))
    ≡ Queue.allocate 4 (view 4 one_entry) bundle none
allocate_refines_example = allocate_refines 4 one_entry bundle none one_entry-IsValid

complete_refines_example :
    view 4 (Buffer.complete 4 two_entries 0 77) ≡ Queue.complete (view 4 two_entries) 0 77
complete_refines_example = complete_refines 4 two_entries 0 77 two_entries-IsValid

commit_refines_example :
    (let (e, rob) = Buffer.commit 4 one_done in (e, view 4 rob)) ≡ Queue.commit 4 (view 4 one_done)
commit_refines_example = commit_refines 4 one_done one_done-IsValid

squash_refines_example :
    let (gone, indices, rob) = Buffer.squash_younger_than 4 one_done 0 in
    ((gone, view 4 rob) ≡ Queue.squash_younger_than (view 4 one_done) 0)
    × (indices ≡ map place_of gone)
squash_refines_example = squash_refines 4 one_done 0 one_done-IsValid

squash_twice_example :
    let rob = (Buffer.squash_younger_than 4 one_done 0).2 in
    ((Buffer.squash_younger_than 4 rob 0).0 ≡ []) × ((Buffer.squash_younger_than 4 rob 0).1 ≡ [])
squash_twice_example = squash_twice 4 one_done 0 one_done-IsValid

abbrev committer : Committer
committer = record {
  rob = one_done;
  prf = replicate 64 (record { value = 9; ready = true });
  arf = replicate 16 0;
  free_list = 30 ∷ 31 ∷ [];
  rat = record { table = replicate 16 0; physical_reg_count = 64; checkpoints = [] };
  store_buffer = none;
  committed_instruction_count = 0;
  halted = false;
}

step_in_order_example : Retired 4 2 committer (Unit.step 4 2 committer)
step_in_order_example = step_in_order 4 2 committer one_done-IsValid
