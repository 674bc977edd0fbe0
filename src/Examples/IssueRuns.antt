-- ===== src/Examples/IssueRuns.antt =====
-- A queue of three slots with a ready instruction and a waiting one, and a dispatch into it.
use cpu_cpp.Base.{◌+◌, ◌≡◌, refl, ◌⊎◌, true, false, [], ◌∷◌, map, arith, ◌==◌, if◌then◌else◌, count}
use cpu_cpp.Rename.Bundle.{RenameBundle, blank_rename}
use cpu_cpp.Rob.Buffer
use cpu_cpp.Rob.Allocate.{reset-IsValid}
use cpu_cpp.Issue.Queue
use cpu_cpp.Issue.Queue.{Entry, IssueQueue}
use cpu_cpp.Issue.Unit.{issue}
use cpu_cpp.Issue.Counting
use cpu_cpp.Issue.Counting.{clear_listed, squash_counts}
use cpu_cpp.Issue.Wakeup.{waits_for, informed, wakeup_lem}
use cpu_cpp.Issue.Progress.{Issued, issue_lem}
use cpu_cpp.Issue.Dispatch.{Dispatcher, one_if, dispatch_both}
use cpu_cpp.Issue.Accepted
use cpu_cpp.Issue.Accepted.{Took, Room}
use cpu_cpp.Issue.Atomic.{Both, dispatch_both_atomic}

abbrev ready_entry : Entry
ready_entry = record (Queue.blank) {
  valid = true;
  rs1_ready = true;
  rs2_ready = true;
  rob_index = 1;
}

abbrev waiting_entry : Entry
waiting_entry = record (Queue.blank) {
  valid = true;
  physical_rs1 = 20;
  rs2_ready = true;
  rob_index = 2;
}

abbrev waiting : IssueQueue
waiting = record { entries = ready_entry ∷ Queue.blank ∷ waiting_entry ∷ []; count = 2 }

waiting-IsValid : Counting.IsValid waiting
waiting-IsValid = record { counted = refl }

squash_counts_example :
    Counting.IsValid (Queue.squash waiting (2 ∷ [])).1
    × ((Queue.squash waiting (2 ∷ [])).0 + (Queue.squash waiting (2 ∷ [])).1.count ≡ 2)
    × ((Queue.squash waiting (2 ∷ [])).1.entries ≡ map (clear_listed (2 ∷ [])) waiting.entries)
squash_counts_example = squash_counts waiting (2 ∷ []) waiting-IsValid

wakeup_lem_example :
    (Queue.wakeup waiting 20 7 ≡ record waiting { entries = map (informed 20 7) waiting.entries })
    × (count (waits_for 20) (Queue.wakeup waiting 20 7).entries
        ≡ (if 20 == 20 then 0 else count (waits_for 20) waiting.entries))
wakeup_lem_example = wakeup_lem waiting 20 7 20

issue_lem_example : Issued 2 waiting (issue 2 waiting)
issue_lem_example = issue_lem 2 waiting waiting-IsValid

abbrev bundle : RenameBundle
bundle = record blank_rename { valid = true; physical_rd = 20; register_write = true }

abbrev roomy : IssueQueue
roomy = record { entries = ready_entry ∷ Queue.blank ∷ Queue.blank ∷ []; count = 1 }

abbrev dispatcher : Dispatcher
dispatcher = record { rob = Buffer.reset 4; issue_queue = roomy; prf = [] }

dispatcher-IsValid : Accepted.IsValid 4 dispatcher
dispatcher-IsValid = record {
  rob_valid = (reset-IsValid 4 (omega arith)).0;
  queue_valid = record { counted = refl };
}

dispatch_both_atomic_example :
    let n = one_if bundle.valid + one_if bundle.valid in
    let r = dispatch_both 4 dispatcher bundle bundle in
    Accepted.IsValid 4 r.1
    × ((Room 4 n dispatcher × Took 4 n dispatcher r × Both 4 bundle bundle dispatcher r.1)
        ⊎ ((Room 4 n dispatcher → ⊥) × (r ≡ (false, dispatcher))))
dispatch_both_atomic_example = dispatch_both_atomic 4 dispatcher bundle bundle dispatcher-IsValid

-- Both instructions are taken.
dispatch_takes_both :
    ((dispatch_both 4 dispatcher bundle bundle).0 ≡ true)
    × ((dispatch_both 4 dispatcher bundle bundle).1.issue_queue.count ≡ 3)
unfolding dispatch_both Buffer.reset Buffer.allocate Queue.insert
dispatch_takes_both = (refl, refl)
