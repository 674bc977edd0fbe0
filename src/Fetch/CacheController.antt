-- ===== src/Fetch/CacheController.antt =====
-- superscalar/core/memory/instruction/InstructionCacheController.hpp: the state machine that refills
-- a line after a miss. The registers are the `logic` library's: at a rising edge an output takes the
-- value that its input bus had before. `cycle` is what the controller does between two edges, with
-- the register outputs of the next edge.
use cpu_cpp.Base.{
  ℕ, ◌+◌, ◌-◌, ◌*◌, ◌%◌, ◌^◌, Bool, true, false, not, List, ltb, leb, if◌then◌else◌, set,
}
use cpu_cpp.Fetch.InstructionCache.{
  Geometry, InstructionCache, line_bytes, get_line_index, get_tag, refill,
}

pub data State : Type 0 where
  idle refill_request refill_wait install complete : State

-- The register outputs, the refill buffer, the cache, and the value that the address bus keeps.
pub record Controller : Type 0 where
  pub state : State
  pub miss_address : ℕ
  pub line_base : ℕ
  pub refill_word : ℕ
  pub refill_buffer : List ℕ
  pub memory_address : ℕ
  pub cache : InstructionCache

pub record Inputs : Type 0 where
  pub reset : Bool
  pub miss : Bool
  pub miss_address : ℕ
  pub memory_response : Bool
  pub memory_instruction : ℕ

pub record Outputs : Type 0 where
  pub memory_request : Bool
  pub refill_done : Bool

abbrev quiet : Outputs
quiet = record { memory_request = false; refill_done = false }

module _ (g : Geometry) where
  -- The address of the word that is refilled, on a bus of the address width.
  abbrev pub word_address : ℕ → ℕ → ℕ
  word_address line_base word = (line_base + word * g.instruction_bytes) % 2 ^ g.address_width

  -- `miss_address & ~(LineBytes - 1)`
  abbrev pub base_of : ℕ → ℕ
  base_of address = address - address % line_bytes g

  unfoldable pub evaluate_idle : Inputs → Controller → Outputs × Controller
  evaluate_idle x c = if not x.miss then (quiet, c) else (
    quiet,
    record c {
      miss_address = x.miss_address;
      line_base = base_of x.miss_address;
      refill_word = 0;
      state = State.refill_request;
    },
  )

  unfoldable pub evaluate_refill_request : Controller → Outputs × Controller
  evaluate_refill_request c = (
    record quiet { memory_request = true },
    record c { memory_address = word_address c.line_base c.refill_word; state = State.refill_wait },
  )

  unfoldable pub evaluate_refill_wait : Inputs → Controller → Outputs × Controller
  evaluate_refill_wait x c =
      let c' : Controller = record c { memory_address = word_address c.line_base c.refill_word } in
      (
        record quiet { memory_request = true },
        if not x.memory_response then c' else record c' {
          refill_buffer =
              if ltb c.refill_word g.instructions_per_line
              then set c.refill_buffer c.refill_word x.memory_instruction
              else c.refill_buffer;
          refill_word = (c.refill_word + 1) % 2 ^ 8;
          state =
              if leb g.instructions_per_line (c.refill_word + 1)
              then State.install
              else State.refill_request;
        },
      )

  unfoldable pub evaluate_install : Controller → Outputs × Controller
  evaluate_install c = (
    quiet,
    record c {
      cache =
          refill g c.cache (get_line_index g c.line_base) (get_tag g c.line_base) c.refill_buffer;
      state = State.complete;
    },
  )

  unfoldable pub evaluate_complete : Controller → Outputs × Controller
  evaluate_complete c = (record quiet { refill_done = true }, record c { state = State.idle })

  -- The `switch` on the state.
  unfoldable pub evaluate_state : State → Inputs → Controller → Outputs × Controller
  unfolding evaluate_idle evaluate_refill_request evaluate_refill_wait evaluate_install
      evaluate_complete
  evaluate_state State.idle x c = evaluate_idle x c
  evaluate_state State.refill_request x c = evaluate_refill_request c
  evaluate_state State.refill_wait x c = evaluate_refill_wait x c
  evaluate_state State.install x c = evaluate_install c
  evaluate_state State.complete x c = evaluate_complete c

  -- `evaluate`, with the override by the reset.
  unfoldable pub cycle : Inputs → Controller → Outputs × Controller
  unfolding evaluate_state
  cycle x c =
      let (y, c') = evaluate_state c.state x c in
      if x.reset
      then (
        quiet,
        record c' { state = State.idle; miss_address = 0; line_base = 0; refill_word = 0 },
      )
      else (y, c')
