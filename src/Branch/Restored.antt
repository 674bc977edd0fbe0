-- ===== src/Branch/Restored.antt =====
-- The state that `recover` of superscalar/core/branch/BranchRecoveryUnit.hpp leaves.
use cpu_cpp.Base.{ℕ, ◌+◌, ◌≡◌, ◌≢◌, Bool, true, false, ◌&&◌, Option, some, List, map, ◌==◌, count}
use cpu_cpp.Isa.{invalid_register}
use cpu_cpp.Rename.FreeList
use cpu_cpp.Rename.AliasTable.{AliasTable, Checkpoint}
use cpu_cpp.Rob.Entry.{Entry}
use cpu_cpp.Rob.Buffer
use cpu_cpp.Rob.Buffer.{Buffer}
use cpu_cpp.Rob.Contents
use cpu_cpp.Rob.Queue
use cpu_cpp.Rob.Queue.{view}
use cpu_cpp.Rob.Sweep.{place_of}
use cpu_cpp.Issue.Counting
use cpu_cpp.Issue.Counting.{clear_listed}
use cpu_cpp.Branch.Recovery.{BranchResult, no_control, Recoverer, checkpoint_for, recover}

module _ (cap : ℕ) where
  pub record IsValid (u : Recoverer) : Type 0 where
    pub rob_valid : Contents.IsValid cap u.rob
    pub queue_valid : Counting.IsValid u.issue_queue

  -- The entries younger than the branch.
  abbrev pub younger : Recoverer → BranchResult → List Entry
  younger u result = (Queue.squash_younger_than (view cap u.rob) result.rob_index).0

  -- Why a recovery is due, for the branch's entry `e` and the checkpoint `cp`.
  pub record Cause (u : Recoverer) (result : BranchResult) (e : Entry) (cp : Checkpoint)
      : Type 0 where
    pub resolved : result.valid ≡ true
    pub mispredicted : result.mispredicted ≡ true
    pub at : Buffer.entry cap u.rob result.rob_index ≡ some e
    pub live : e.valid ≡ true
    pub saved : checkpoint_for u.rat e ≡ some cp
    pub usable : cp.valid ≡ true

  -- The entry has the physical register `p` as its destination.
  abbrev pub writes : ℕ → Entry → Bool
  writes p e = e.register_write && e.physical_rd == p

  -- A recovery to the checkpoint `cp` took place.
  pub record Restored (u : Recoverer) (result : BranchResult) (cp : Checkpoint) (u' : Recoverer)
      : Type 0 where
    pub valid : IsValid u'
    pub kept : view cap u'.rob ≡ (Queue.squash_younger_than (view cap u.rob) result.rob_index).1
    pub released :
        (p : ℕ)
        → p ≢ invalid_register
        → count (λ x. x == p) u'.free_list
          ≡ count (λ x. x == p) u.free_list + count (λ e. writes p e) (younger u result)
    pub cleared :
        u'.issue_queue.entries
        ≡ map (clear_listed (map place_of (younger u result))) u.issue_queue.entries
    pub restored : u'.rat ≡ record (u.rat) { table = cp.mappings }
    pub flushed : u'.control ≡ record {
      recover = true;
      fetch_redirect = true;
      redirect_pc = result.redirect_pc;
      fetch_decode_flush = true;
    }

  -- What a call comes to.
  pub data Outcome (u : Recoverer) (result : BranchResult) : Bool × Recoverer → Type 0 where
    refused :
        ((e : Entry) (cp : Checkpoint) → Cause u result e cp → ⊥)
        → Outcome u result (false, record u { control = no_control })
    recovered :
        (e : Entry) (cp : Checkpoint) (u' : Recoverer)
        → Cause u result e cp
        → Restored u result cp u'
        → Outcome u result (true, u')
