-- ===== src/Memory/LoadStoreQueue/Squash.antt =====
-- What a squash of superscalar/core/memory/LoadStoreQueue.hpp leaves.
use cpu_cpp.Base.{ℕ, ◌≡◌, sym, ◌∙◌, not, ◌&&◌, List, [], ◌∷◌, arith, keep, contains}
use cpu_cpp.First.{keep-keep, keep_all}
use cpu_cpp.Memory.LoadStoreQueue
use cpu_cpp.Memory.LoadStoreQueue.{Entry, squash_one}

-- A squash leaves, in order, the entries whose index it does not list and those that are not valid.
pub squash_leaves :
    (is : List ℕ) (entries : List Entry)
    → LoadStoreQueue.squash entries is
      ≡ keep (λ e. not (e.valid && contains e.rob_index is)) entries
unfolding LoadStoreQueue.squash squash_one
squash_leaves [] entries = sym (keep_all _ entries (λ e. ground arith))
squash_leaves (i ∷ is) entries =
    squash_leaves is (squash_one i entries) ∙ keep-keep _ _ _ (λ e. ground arith) entries
