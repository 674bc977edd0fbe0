-- ===== src/Memory/StoreBuffer.antt =====
-- superscalar/core/commit/StoreBuffer.hpp: the stores in program order, oldest first. `cap` is the
-- template's `Capacity`.
pub mod Forward
pub mod Bounded
use cpu_cpp.Base.{
  ℕ, Bool, true, false, not, ◌&&◌, Option, none, some, List, [], ◌∷◌, ◌++◌, leb, ◌==◌,
  if◌then◌else◌, length, keep,
}
use mathlib.Core.List.{reverse}

pub record Entry : Type 0 where
  pub valid : Bool
  pub rob_index : ℕ
  pub pc : ℕ
  pub address : ℕ
  pub data_word : ℕ
  pub address_ready : Bool
  pub data_ready : Bool
  pub committed : Bool

abbrev pub StoreBuffer : Type 0
StoreBuffer = List Entry

abbrev pub blank : Entry
blank = record {
  valid = false;
  rob_index = 0;
  pc = 0;
  address = 0;
  data_word = 0;
  address_ready = false;
  data_ready = false;
  committed = false;
}

abbrev pub is_full : ℕ → StoreBuffer → Bool
is_full cap entries = leb cap (length entries)

unfoldable pub allocate : ℕ → StoreBuffer → ℕ → ℕ → Bool × StoreBuffer
allocate cap entries rob_index pc =
    if is_full cap entries
    then (false, entries)
    else (true, entries ++ (record blank { valid = true; rob_index = rob_index; pc = pc } ∷ []))

-- The test that the loops of `update` and `mark_committed` make.
abbrev pub is_of : ℕ → Entry → Bool
is_of rob_index e = e.valid && e.rob_index == rob_index

unfoldable pub update : StoreBuffer → ℕ → ℕ → ℕ → Bool × StoreBuffer
update [] rob_index address word = (false, [])
update (e ∷ es) rob_index address word =
    let (found, es') = update es rob_index address word in
    if is_of rob_index e
    then (
      true,
      record e { address = address; data_word = word; address_ready = true; data_ready = true }
          ∷ es,
    )
    else (found, e ∷ es')

-- The loop of `forward`, over the entries youngest first.
unfoldable pub forward_from : List Entry → ℕ → Option ℕ
forward_from [] address = none
forward_from (e ∷ es) address =
    let rest = forward_from es address in
    if e.valid && e.address_ready && e.address == address
    then (if e.data_ready then some e.data_word else none)
    else rest

unfoldable pub forward : StoreBuffer → ℕ → Option ℕ
forward entries address = forward_from (reverse entries) address

unfoldable pub mark_committed : StoreBuffer → ℕ → Bool × StoreBuffer
mark_committed [] rob_index = (false, [])
mark_committed (e ∷ es) rob_index =
    let (found, es') = mark_committed es rob_index in
    if is_of rob_index e then (true, record e { committed = true } ∷ es) else (found, e ∷ es')

unfoldable pub pop_committed : StoreBuffer → Option Entry × StoreBuffer
pop_committed [] = (none, [])
pop_committed (e ∷ es) = if e.valid && e.committed then (some e, es) else (none, e ∷ es)

-- The inner loop of `squash`, for one index.
unfoldable pub squash_one : ℕ → StoreBuffer → StoreBuffer
squash_one rob_index = keep (λ e. not (e.valid && not e.committed && e.rob_index == rob_index))

unfoldable pub squash : StoreBuffer → List ℕ → StoreBuffer
unfolding squash_one
squash entries [] = entries
squash entries (i ∷ is) = squash (squash_one i entries) is
