-- ===== src/Branch/Predictor.antt =====
-- superscalar/core/branch/BranchPredictor.hpp: two-bit counters beside a table of targets.
-- `TableSize` is the section's parameter.
use cpu_cpp.Base.{
  ℕ, ◌+◌, ◌-◌, ◌/◌, ◌%◌, Bool, true, false, ◌&&◌, List, ltb, leb, ◌==◌, if◌then◌else◌, get_or, set,
  replicate,
}

pub data BranchPredictionState : Type 0 where
  strong_not_taken weak_not_taken weak_taken strong_taken : BranchPredictionState

-- The cast to the counter's type.
abbrev pub counter_of : BranchPredictionState → ℕ
counter_of BranchPredictionState.strong_not_taken = 0
counter_of BranchPredictionState.weak_not_taken = 1
counter_of BranchPredictionState.weak_taken = 2
counter_of BranchPredictionState.strong_taken = 3

pub record BranchPrediction : Type 0 where
  pub taken : Bool
  pub target : ℕ
  pub btb_hit : Bool

pub record BtbEntry : Type 0 where
  pub valid : Bool
  pub tag : ℕ
  pub target : ℕ

abbrev pub blank_entry : BtbEntry
blank_entry = record { valid = false; tag = 0; target = 0 }

pub record BranchPredictor : Type 0 where
  pub counters : List ℕ
  pub btb : List BtbEntry

module _ (table_size : ℕ) where
  -- `(pc >> 2) % TableSize`
  abbrev pub hash : ℕ → ℕ
  hash pc = pc / 4 % table_size

  unfoldable pub reset : BranchPredictionState → BranchPredictor
  reset initial_state = record {
    counters = replicate table_size (counter_of initial_state);
    btb = replicate table_size blank_entry;
  }

  unfoldable pub predict_taken : BranchPredictor → ℕ → Bool
  predict_taken p pc = leb 2 (get_or p.counters (hash pc) 0)

  unfoldable pub predict : BranchPredictor → ℕ → BranchPrediction
  predict p pc =
      let entry = get_or p.btb (hash pc) blank_entry in
      let hit = entry.valid && entry.tag == pc in
      record {
        taken = leb 2 (get_or p.counters (hash pc) 0);
        target = if hit then entry.target else 0;
        btb_hit = hit;
      }

  -- The step of a counter.
  unfoldable pub step_counter : Bool → ℕ → ℕ
  step_counter true counter = if ltb counter 3 then counter + 1 else counter
  step_counter false counter = if ltb 0 counter then counter - 1 else counter

  unfoldable pub update : BranchPredictor → ℕ → Bool → ℕ → BranchPredictor
  unfolding step_counter
  update p pc actual_taken actual_target = record {
    counters = set p.counters (hash pc) (step_counter actual_taken (get_or p.counters (hash pc) 0));
    btb =
        if actual_taken
        then set p.btb (hash pc) (record { valid = true; tag = pc; target = actual_target })
        else p.btb;
  }

  unfoldable pub set_state : BranchPredictor → ℕ → BranchPredictionState → BranchPredictor
  set_state p pc new_state = record p { counters = set p.counters (hash pc) (counter_of new_state) }
