-- ===== src/Memory/LoadStoreQueue.antt =====
-- superscalar/core/memory/LoadStoreQueue.hpp: loads and stores in program order, oldest first.
-- `cap` is the template's `Capacity`.
pub mod Ordering
pub mod Squash
pub mod Bounded
use cpu_cpp.Base.{
  ℕ, Bool, true, false, not, ◌&&◌, ◌||◌, Option, some, List, [], ◌∷◌, ◌++◌, leb, ◌==◌,
  if◌then◌else◌, length, keep,
}

pub data OpType : Type 0 where
  none load store : OpType

pub record Entry : Type 0 where
  pub valid : Bool
  pub op : OpType
  pub rob_index : ℕ
  pub pc : ℕ
  pub address_valid : Bool
  pub address : ℕ
  pub data_valid : Bool
  pub data_word : ℕ
  pub executed : Bool
  pub completed : Bool
  pub physical_rd : ℕ

pub record LoadResult : Type 0 where
  pub hit : Bool
  pub must_wait : Bool
  pub data_word : ℕ

pub record ViolationCheck : Type 0 where
  pub violation : Bool
  pub violating_load_rob_index : ℕ
  pub violating_load_pc : ℕ

abbrev pub LoadStoreQueue : Type 0
LoadStoreQueue = List Entry

abbrev pub is_load : Entry → Bool
is_load e = elim e.op [ OpType.load ↦ true | _ ↦ false ]

abbrev pub is_store : Entry → Bool
is_store e = elim e.op [ OpType.store ↦ true | _ ↦ false ]

abbrev pub is_full : ℕ → LoadStoreQueue → Bool
is_full cap entries = leb cap (length entries)

-- The entry that `allocate` pushes.
abbrev pub new_entry : OpType → ℕ → ℕ → ℕ → Entry
new_entry op rob_index pc physical_rd = record {
  valid = true;
  op = op;
  rob_index = rob_index;
  pc = pc;
  address_valid = false;
  address = 0;
  data_valid = false;
  data_word = 0;
  executed = false;
  completed = false;
  physical_rd = physical_rd;
}

unfoldable pub allocate : ℕ → LoadStoreQueue → OpType → ℕ → ℕ → ℕ → Bool × LoadStoreQueue
allocate cap entries op rob_index pc physical_rd =
    if is_full cap entries
    then (false, entries)
    else (true, entries ++ (new_entry op rob_index pc physical_rd ∷ []))

-- The test of `find` and of the other loops for one index.
abbrev pub is_of : ℕ → Entry → Bool
is_of rob_index e = e.valid && e.rob_index == rob_index

-- `find(rob_index)`
unfoldable pub find : LoadStoreQueue → ℕ → Option Entry
find [] rob_index = Option.none
find (e ∷ es) rob_index = let rest = find es rob_index in if is_of rob_index e then some e else rest

-- A write through the pointer that `find` returns: the first entry of that index becomes `f` of it
-- where `p` holds, and the call returns whether it was found with `p`.
unfoldable pub modify :
    (Entry → Bool) → (Entry → Entry) → LoadStoreQueue → ℕ → Bool × LoadStoreQueue
modify p f [] rob_index = (false, [])
modify p f (e ∷ es) rob_index =
    let (found, es') = modify p f es rob_index in
    if is_of rob_index e
    then (if p e then (true, f e ∷ es) else (false, e ∷ es))
    else (found, e ∷ es')

unfoldable pub set_address : LoadStoreQueue → ℕ → ℕ → Bool × LoadStoreQueue
unfolding modify
set_address entries rob_index address =
    modify (λ _. true) (λ e. record e { address = address; address_valid = true }) entries rob_index

unfoldable pub set_store_data : LoadStoreQueue → ℕ → ℕ → Bool × LoadStoreQueue
unfolding modify
set_store_data entries rob_index word =
    modify is_store (λ e. record e { data_word = word; data_valid = true }) entries rob_index

unfoldable pub complete_load : LoadStoreQueue → ℕ → ℕ → Bool × LoadStoreQueue
unfolding modify
complete_load entries rob_index word =
    modify is_load (λ e. record e { data_word = word; data_valid = true; completed = true }) entries
      rob_index

unfoldable pub mark_executed : LoadStoreQueue → ℕ → Bool × LoadStoreQueue
unfolding modify
mark_executed entries rob_index =
    modify (λ _. true) (λ e. record e { executed = true }) entries rob_index

-- The search for a position: the older entries, youngest of them first, the entry, the younger ones.
unfoldable pub split_at :
    LoadStoreQueue → LoadStoreQueue → ℕ → Option (LoadStoreQueue × Entry × LoadStoreQueue)
split_at older [] rob_index = Option.none
split_at older (e ∷ es) rob_index =
    let rest = split_at (e ∷ older) es rob_index in
    if is_of rob_index e then some (older, e, es) else rest

abbrev pub no_result : LoadResult
no_result = record { hit = false; must_wait = false; data_word = 0 }

-- The backward loop of `execute_load`, over the older entries, youngest first.
unfoldable pub scan_older : LoadStoreQueue → ℕ → LoadResult
scan_older [] address = no_result
scan_older (older ∷ rest) address =
    let later = scan_older rest address in
    if not older.valid || not (is_store older)
    then later
    else (if not older.address_valid
        then record no_result { must_wait = true }
        else (if older.address == address
            then (if older.data_valid
                then record no_result { hit = true; data_word = older.data_word }
                else record no_result { must_wait = true })
            else later))

-- The rest of `execute_load`, from the position on.
unfoldable pub load_from : Option (LoadStoreQueue × Entry × LoadStoreQueue) → LoadResult
unfolding scan_older
load_from Option.none = no_result
load_from (some (older, load_entry, younger)) =
    if load_entry.address_valid then scan_older older load_entry.address else no_result

unfoldable pub execute_load : LoadStoreQueue → ℕ → LoadResult
unfolding split_at load_from
execute_load entries load_rob_index = load_from (split_at [] entries load_rob_index)

abbrev pub no_violation : ViolationCheck
no_violation = record { violation = false; violating_load_rob_index = 0; violating_load_pc = 0 }

-- The forward loop of `check_order_violation`, over the younger entries.
unfoldable pub scan_younger : LoadStoreQueue → ℕ → ViolationCheck
scan_younger [] address = no_violation
scan_younger (younger ∷ rest) address =
    let later = scan_younger rest address in
    if not younger.valid || not (is_load younger)
    then later
    else (if younger.executed && younger.address_valid && younger.address == address
        then record {
          violation = true;
          violating_load_rob_index = younger.rob_index;
          violating_load_pc = younger.pc;
        }
        else later)

-- The rest of `check_order_violation`, from the position on.
unfoldable pub violation_from : Option (LoadStoreQueue × Entry × LoadStoreQueue) → ViolationCheck
unfolding scan_younger
violation_from Option.none = no_violation
violation_from (some (older, store_entry, younger)) =
    if store_entry.address_valid then scan_younger younger store_entry.address else no_violation

unfoldable pub check_order_violation : LoadStoreQueue → ℕ → ViolationCheck
unfolding split_at violation_from
check_order_violation entries store_rob_index = violation_from (split_at [] entries store_rob_index)

-- `remove(rob_index)`: the first entry of that index leaves.
unfoldable pub remove : LoadStoreQueue → ℕ → Bool × LoadStoreQueue
remove [] rob_index = (false, [])
remove (e ∷ es) rob_index =
    let (found, es') = remove es rob_index in
    if is_of rob_index e then (true, es) else (found, e ∷ es')

-- The inner loop of `squash`, for one index.
unfoldable pub squash_one : ℕ → LoadStoreQueue → LoadStoreQueue
squash_one rob_index = keep (λ e. not (is_of rob_index e))

unfoldable pub squash : LoadStoreQueue → List ℕ → LoadStoreQueue
unfolding squash_one
squash entries [] = entries
squash entries (i ∷ is) = squash (squash_one i entries) is
