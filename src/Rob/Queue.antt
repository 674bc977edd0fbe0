-- ===== src/Rob/Queue.antt =====
-- The specification of the reorder buffer: a bounded queue whose entries carry consecutive places
-- of a ring, allocated at the back, completed by place, committed at the front when completed, and
-- cut behind a given place.
use cpu_cpp.Base.{
  ℕ, ◌&&◌, Option, none, some, true, List, [], ◌∷◌, ◌++◌, map, ltb, ◌==◌, if◌then◌else◌, length,
}
use cpu_cpp.Ring.{next, place}
use cpu_cpp.Rename.AliasTable.{Checkpoint}
use cpu_cpp.Rename.Bundle.{RenameBundle}
use cpu_cpp.Rob.Entry.{Entry, entry_of}
use cpu_cpp.Rob.Buffer.{Buffer}
use cpu_cpp.Rob.Contents.{contents}

pub record Queue : Type 0 where
  pub first : ℕ
  pub items : List Entry

abbrev pub view : ℕ → Buffer → Queue
view cap rob = record { first = rob.head; items = contents cap rob }

unfoldable pub allocate : ℕ → Queue → RenameBundle → Option Checkpoint → Option ℕ × Queue
allocate cap q bundle checkpoint =
    let index = place cap q.first (length q.items) in
    if bundle.valid && ltb (length q.items) cap
    then (some index, record q { items = q.items ++ (entry_of bundle index checkpoint ∷ []) })
    else (none, q)

-- The entry of the place gets its result and is completed; nothing else of it changes.
abbrev pub finish : ℕ → ℕ → Entry → Entry
finish index v e = if e.rob_index == index then record e { result = v; completed = true } else e

unfoldable pub complete : Queue → ℕ → ℕ → Queue
complete q index result = record q { items = map (finish index result) q.items }

unfoldable pub commit_items : ℕ → ℕ → List Entry → Option Entry × Queue
commit_items cap first [] = (none, record { first = first; items = [] })
commit_items cap first (e ∷ es) =
    if e.completed
    then (some e, record { first = next cap first; items = es })
    else (none, record { first = first; items = e ∷ es })

unfoldable pub commit : ℕ → Queue → Option Entry × Queue
unfolding commit_items
commit cap q = commit_items cap q.first q.items

-- What stays when the list is cut behind the entry with the given place, and what goes.
unfoldable pub cut : ℕ → List Entry → List Entry × List Entry
cut index [] = ([], [])
cut index (e ∷ es) =
    let (kept, gone) = cut index es in
    if e.rob_index == index then (e ∷ [], es) else (e ∷ kept, gone)

unfoldable pub squash_younger_than : Queue → ℕ → List Entry × Queue
squash_younger_than q index =
    let (kept, gone) = cut index q.items in (gone, record q { items = kept })
