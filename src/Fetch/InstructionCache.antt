-- ===== src/Fetch/InstructionCache.antt =====
-- superscalar/core/memory/instruction/CacheLine.hpp: a direct-mapped instruction cache with two
-- ports. The sizes are powers of two (`static_assert`), so a mask is a remainder and a shift a
-- quotient.
use cpu_cpp.Base.{
  ℕ, ◌*◌, ◌/◌, ◌%◌, ◌^◌, Bool, true, false, not, ◌&&◌, List, map, leb, ◌==◌, if◌then◌else◌, get_or,
  set, replicate,
}

-- The template's parameters; an instruction has `instruction_bytes` times 8 wires.
pub record Geometry : Type 0 where
  pub address_width : ℕ
  pub instruction_bytes : ℕ
  pub num_lines : ℕ
  pub instructions_per_line : ℕ

pub record CacheLine : Type 0 where
  pub valid : Bool
  pub tag : ℕ
  pub instructions : List ℕ

-- `lines_`
abbrev pub InstructionCache : Type 0
InstructionCache = List CacheLine

abbrev pub blank_line : Geometry → CacheLine
blank_line g = record { valid = false; tag = 0; instructions = replicate g.instructions_per_line 0 }

abbrev pub line_bytes : Geometry → ℕ
line_bytes g = g.instruction_bytes * g.instructions_per_line

abbrev pub get_line_index : Geometry → ℕ → ℕ
get_line_index g address = address / line_bytes g % g.num_lines

abbrev pub get_tag : Geometry → ℕ → ℕ
get_tag g address = address / (line_bytes g * g.num_lines)

abbrev pub get_instruction_offset : Geometry → ℕ → ℕ
get_instruction_offset g address = address % line_bytes g / g.instruction_bytes

unfoldable pub refill : Geometry → InstructionCache → ℕ → ℕ → List ℕ → InstructionCache
refill g lines line_index tag instructions =
    if leb g.num_lines line_index
    then lines
    else set lines line_index (record { valid = true; tag = tag; instructions = instructions })

unfoldable pub install_line : Geometry → InstructionCache → ℕ → List ℕ → InstructionCache
install_line g lines address instructions =
    set lines (get_line_index g address)
      (record { valid = true; tag = get_tag g address; instructions = instructions })

unfoldable pub invalidate : InstructionCache → InstructionCache
invalidate lines = map (λ (line : CacheLine). record line { valid = false }) lines

-- One port: the hit wire and the instruction bus.
unfoldable pub evaluate_port : Geometry → InstructionCache → ℕ → Bool × ℕ
evaluate_port g lines address =
    let line = get_or lines (get_line_index g address) (blank_line g) in
    if line.valid && line.tag == get_tag g address
    then (
      true,
      get_or line.instructions (get_instruction_offset g address) 0 % 2 ^ (8 * g.instruction_bytes),
    )
    else (false, 0)

-- Both ports, under the enable wire.
unfoldable pub evaluate : Geometry → InstructionCache → Bool → ℕ → ℕ → (Bool × ℕ) × (Bool × ℕ)
unfolding evaluate_port
evaluate g lines enable address0 address1 =
    if not enable
    then ((false, 0), (false, 0))
    else (evaluate_port g lines address0, evaluate_port g lines address1)
