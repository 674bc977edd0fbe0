-- ===== src/Rename/AliasTable.antt =====
-- superscalar/core/rename/RegisterAliasTable.hpp: the mapping of architectural to physical
-- registers, with its stack of checkpoints (newest last, as in the vector).
use cpu_cpp.Base.{
  ℕ, zero, suc, ◌+◌, ◌%◌, Bool, true, false, not, ◌||◌, Option, none, some, List, [], ◌∷◌, ◌++◌,
  leb, if◌then◌else◌, get_or, length,
}
use cpu_cpp.Base
use cpu_cpp.Isa.{register_count}

pub record Checkpoint : Type 0 where
  pub mappings : List ℕ
  pub valid : Bool

pub record AliasTable : Type 0 where
  pub table : List ℕ
  pub physical_reg_count : ℕ
  pub checkpoints : List Checkpoint

abbrev pub blank_checkpoint : Checkpoint
blank_checkpoint = record { mappings = Base.replicate register_count 0; valid = false }

-- `vector::back` where there is one
abbrev pub last? : List Checkpoint → Option Checkpoint
last? [] = none
last? (c ∷ []) = some c
last? (c ∷ d ∷ cs) = last? (d ∷ cs)

-- `vector::pop_back`
abbrev pub pop_back : List Checkpoint → List Checkpoint
pop_back [] = []
pop_back (c ∷ []) = []
pop_back (c ∷ d ∷ cs) = c ∷ pop_back (d ∷ cs)

-- The identity mapping: the loop of `reset`, `n` rounds from `i` on.
unfoldable pub identity_from : ℕ → ℕ → List ℕ
identity_from zero i = []
identity_from (suc n) i = (i % 256) ∷ identity_from n (i + 1)

unfoldable pub reset : AliasTable → AliasTable
unfolding identity_from
reset rat = record rat { table = identity_from register_count 0; checkpoints = [] }

-- The copy of the whole array, pushed on the stack and returned.
unfoldable pub checkpoint : AliasTable → Checkpoint × AliasTable
checkpoint rat =
    let snapshot : Checkpoint = record { mappings = rat.table; valid = true } in
    (snapshot, record rat { checkpoints = rat.checkpoints ++ (snapshot ∷ []) })

unfoldable pub latest_checkpoint : AliasTable → Option Checkpoint
latest_checkpoint rat = last? rat.checkpoints

unfoldable pub pop_checkpoint : AliasTable → AliasTable
pop_checkpoint rat = record rat { checkpoints = pop_back rat.checkpoints }

-- `restore(const Checkpoint&)`
unfoldable pub restore_from : AliasTable → Checkpoint → AliasTable
restore_from rat cp = if cp.valid then record rat { table = cp.mappings } else rat

-- `restore()`
unfoldable pub restore : AliasTable → AliasTable
unfolding restore_from
restore rat = elim (last? rat.checkpoints) [
  | none ↦ rat
  | some cp ↦ restore_from (record rat { checkpoints = pop_back rat.checkpoints }) cp
]

unfoldable pub lookup : AliasTable → ℕ → ℕ
lookup rat index = if leb register_count index then 0 else get_or rat.table index 0

unfoldable pub set : AliasTable → ℕ → ℕ → AliasTable
set rat index physical_register =
    if leb register_count index || leb rat.physical_reg_count physical_register
    then rat
    else record rat { table = Base.set rat.table index physical_register }
