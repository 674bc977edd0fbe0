-- ===== src/Rob/Buffer.antt =====
-- superscalar/core/dispatch/ReOrderBuffer.hpp: the circular buffer. `cap` is the template's
-- `Capacity`, the length of the array. An operation that changes the buffer returns the new one.
use cpu_cpp.Base.{
  ℕ, zero, suc, ◌+◌, ◌-◌, Bool, not, ◌&&◌, ◌||◌, Option, none, some, List, [], ◌∷◌, leb, ◌==◌,
  if◌then◌else◌, size_minus, get_or, set, replicate, contains,
}
use cpu_cpp.Ring.{next}
use cpu_cpp.Rename.AliasTable.{Checkpoint}
use cpu_cpp.Rename.Bundle.{RenameBundle}
use cpu_cpp.Rob.Entry.{Entry, blank, entry_of, complete_entry}

pub record Buffer : Type 0 where
  pub entries : List Entry
  pub head : ℕ
  pub tail : ℕ
  pub count : ℕ

abbrev pub is_empty : Buffer → Bool
is_empty rob = rob.count == 0

abbrev pub is_full : ℕ → Buffer → Bool
is_full cap rob = rob.count == cap

unfoldable pub reset : ℕ → Buffer
reset cap = record { entries = replicate cap blank; head = 0; tail = 0; count = 0 }

-- The index that goes out through the reference parameter is `some` where the call returns true.
unfoldable pub allocate : ℕ → Buffer → RenameBundle → Option Checkpoint → Option ℕ × Buffer
allocate cap rob bundle checkpoint = if not bundle.valid || is_full cap rob then (none, rob) else (
  some rob.tail,
  record rob {
    entries = set rob.entries rob.tail (entry_of bundle rob.tail checkpoint);
    tail = next cap rob.tail;
    count = rob.count + 1;
  },
)

-- `complete(index, result)`
unfoldable pub complete : ℕ → Buffer → ℕ → ℕ → Buffer
complete cap rob index result =
    let e = get_or rob.entries index blank in
    if leb cap index || not e.valid
    then rob
    else record rob { entries = set rob.entries index (complete_entry result e) }

-- `commit(committed_entry)`: the entry is `some` where the call returns true. The subtraction runs
-- only where `count_` is not 0.
unfoldable pub commit : ℕ → Buffer → Option Entry × Buffer
commit cap rob =
    let e = get_or rob.entries rob.head blank in
    if is_empty rob || (not e.valid || not e.completed) then (none, rob) else (
      some e,
      record rob {
        entries = set rob.entries rob.head blank;
        head = next cap rob.head;
        count = rob.count - 1;
      },
    )

-- `head()`, `none` for the null pointer
unfoldable pub head_entry : Buffer → Option Entry
head_entry rob = if is_empty rob then none else some (get_or rob.entries rob.head blank)

-- `entry(index)`, `none` for the null pointer
unfoldable pub entry : ℕ → Buffer → ℕ → Option Entry
entry cap rob index = if leb cap index then none else some (get_or rob.entries index blank)

-- The search of `squash_younger_than`: `n` rounds, at `current` after `position` steps.
unfoldable pub locate : ℕ → ℕ → ℕ → ℕ → ℕ → Option ℕ
locate cap branch_index zero current position = none
locate cap branch_index (suc n) current position =
    let rest = locate cap branch_index n (next cap current) (position + 1) in
    if current == branch_index then some position else rest

-- The clearing loop of `squash_younger_than`: `n` rounds from `current` on. The two vectors get
-- the valid entries in the order of the walk.
unfoldable pub sweep : ℕ → ℕ → ℕ → List Entry → List Entry × List ℕ × List Entry
sweep cap zero current entries = ([], [], entries)
sweep cap (suc n) current entries =
    let e = get_or entries current blank in
    let (squashed, indices, entries') =
      sweep cap n (next cap current) (set entries current blank) in
    if e.valid then (e ∷ squashed, current ∷ indices, entries') else (squashed, indices, entries')

-- After the search. The subtractions run only where `branch_position` is below `count_`.
unfoldable pub squash_from : ℕ → Buffer → ℕ → Option ℕ → List Entry × List ℕ × Buffer
squash_from cap rob branch_index none = ([], [], rob)
squash_from cap rob branch_index (some branch_position) =
    let younger_count = rob.count - branch_position - 1 in
    let (squashed, indices, entries') =
      sweep cap younger_count (next cap branch_index) rob.entries in
    (
      squashed,
      indices,
      record rob {
        entries = entries';
        tail = next cap branch_index;
        count = rob.count - younger_count;
      },
    )

-- `squash_younger_than(branch_index, squashed_indices)`: the squashed entries, their indices, and
-- the buffer.
unfoldable pub squash_younger_than : ℕ → Buffer → ℕ → List Entry × List ℕ × Buffer
unfolding squash_from
squash_younger_than cap rob branch_index =
    squash_from cap rob branch_index (locate cap branch_index rob.count rob.head 0)

-- The loops of `squash(squashed_rob_indices)`: the array and the number of removed entries.
unfoldable pub squash_entries : List Entry → List ℕ → List Entry × ℕ
squash_entries [] indices = ([], 0)
squash_entries (e ∷ es) indices =
    let (es', removed) = squash_entries es indices in
    if e.valid && contains e.rob_index indices
    then (blank ∷ es', removed + 1)
    else (e ∷ es', removed)

-- `squash(squashed_rob_indices)`: the count falls, head and tail stay.
unfoldable pub squash : Buffer → List ℕ → ℕ × Buffer
unfolding squash_entries
squash rob indices =
    let (entries', removed) = squash_entries rob.entries indices in
    (removed, record rob { entries = entries'; count = size_minus rob.count removed })
