-- ===== src/Branch/Recovery.antt =====
-- superscalar/core/branch/BranchRecoveryUnit.hpp and BranchResult.hpp: what a misprediction
-- discards. `cap` is `ROBCapacity`.
use cpu_cpp.Base.{ℕ, Bool, true, false, not, ◌||◌, Option, none, some, List, [], ◌∷◌, if◌then◌else◌}
use cpu_cpp.Isa.{Opcode}
use cpu_cpp.Rename.FreeList
use cpu_cpp.Rename.FreeList.{FreeList}
use cpu_cpp.Rename.AliasTable
use cpu_cpp.Rename.AliasTable.{AliasTable, Checkpoint}
use cpu_cpp.Rob.Entry.{Entry}
use cpu_cpp.Rob.Buffer
use cpu_cpp.Rob.Buffer.{Buffer}
use cpu_cpp.Issue.Queue
use cpu_cpp.Issue.Queue.{IssueQueue}

pub record BranchResult : Type 0 where
  pub valid : Bool
  pub rob_index : ℕ
  pub pc : ℕ
  pub opcode : Opcode
  pub taken : Bool
  pub target : ℕ
  pub target_pc : ℕ
  pub fallthrough : ℕ
  pub fallthrough_pc : ℕ
  pub next_pc : ℕ
  pub predicted_taken : Bool
  pub predicted_target : ℕ
  pub mispredicted : Bool
  pub redirect_pc : ℕ

pub record Control : Type 0 where
  pub recover : Bool
  pub fetch_redirect : Bool
  pub redirect_pc : ℕ
  pub fetch_decode_flush : Bool

abbrev pub no_control : Control
no_control = record {
  recover = false;
  fetch_redirect = false;
  redirect_pc = 0;
  fetch_decode_flush = false;
}

-- The unit's signals, and what the arguments of `recover` lead to.
pub record Recoverer : Type 0 where
  pub control : Control
  pub rob : Buffer
  pub rat : AliasTable
  pub free_list : FreeList
  pub issue_queue : IssueQueue

-- The checkpoint of the branch, or else the latest of the table.
unfoldable pub checkpoint_for : AliasTable → Entry → Option Checkpoint
checkpoint_for rat e =
    if e.has_checkpoint then some e.checkpoint else AliasTable.latest_checkpoint rat

-- The loop over the squashed entries.
unfoldable pub release_all : List Entry → FreeList → FreeList
release_all [] free = free
release_all (e ∷ es) free =
    release_all es (if not e.register_write then free else FreeList.release free e.physical_rd)

-- From the squash of the reorder buffer on.
unfoldable pub discard : Recoverer → BranchResult → List Entry × List ℕ × Buffer → Recoverer
unfolding release_all
discard u result (squashed_entries, squashed_indices, rob) = record u {
  rob = rob;
  free_list = release_all squashed_entries u.free_list;
  issue_queue = (Queue.squash u.issue_queue squashed_indices).1;
  control = record {
    recover = true;
    fetch_redirect = true;
    redirect_pc = result.redirect_pc;
    fetch_decode_flush = true;
  };
}

-- From the choice of the checkpoint on.
unfoldable pub restore_and_discard :
    ℕ → Recoverer → BranchResult → Option Checkpoint → Bool × Recoverer
unfolding discard
restore_and_discard cap u result none = (false, u)
restore_and_discard cap u result (some cp) = if not cp.valid then (false, u) else (
  true,
  discard (record u { rat = AliasTable.restore_from u.rat cp }) result
      (Buffer.squash_younger_than cap u.rob result.rob_index),
)

-- From the branch's entry on.
unfoldable pub recover_at : ℕ → Recoverer → BranchResult → Option Entry → Bool × Recoverer
unfolding checkpoint_for restore_and_discard
recover_at cap u result none = (false, u)
recover_at cap u result (some e) =
    if not e.valid then (false, u) else restore_and_discard cap u result (checkpoint_for u.rat e)

-- `recover(branch_result, rob, rat, free_list, issue_queue)`
unfoldable pub recover : ℕ → Recoverer → BranchResult → Bool × Recoverer
unfolding recover_at
recover cap u result =
    let u' = record u { control = no_control } in
    if not result.valid || not result.mispredicted
    then (false, u')
    else recover_at cap u' result (Buffer.entry cap u.rob result.rob_index)
