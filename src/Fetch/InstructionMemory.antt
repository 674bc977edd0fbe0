-- ===== src/Fetch/InstructionMemory.antt =====
-- superscalar/core/memory/instruction/SuperScalarInstructionMemory.hpp: the two-port instruction
-- memory, over the `logic` library's ROM, which is not in the repository, so it is an argument.
use cpu_cpp.Base.{ℕ, zero, suc, ◌+◌, ◌/◌, ◌%◌, ◌^◌, Bool, ◌||◌, leb, if◌then◌else◌}

-- The template's parameters.
pub record Widths : Type 0 where
  pub rom_address_width : ℕ
  pub instruction_bytes : ℕ

-- The buses to the ROM.
pub record InstructionMemory : Type 0 where
  pub rom_address0 : ℕ
  pub rom_address1 : ℕ

pub record Outputs : Type 0 where
  pub response0 : Bool
  pub response1 : Bool
  pub instruction0 : ℕ
  pub instruction1 : ℕ

-- The loop of `AddressShift`: a value is halved fewer times than it has units.
unfoldable pub shift_of : ℕ → ℕ → ℕ
shift_of zero value = 0
shift_of (suc n) value = let bits = shift_of n (value / 2) in if leb value 1 then 0 else 1 + bits

module _ (widths : Widths) where
  -- `AddressShift`
  abbrev pub address_shift : ℕ
  address_shift = shift_of widths.instruction_bytes widths.instruction_bytes

  abbrev pub convert_address : ℕ → ℕ
  convert_address cpu_address = cpu_address / 2 ^ address_shift % 2 ^ widths.rom_address_width

  -- `evaluate`; `rom` gives what a port of the ROM puts out for its enable and address.
  unfoldable pub evaluate :
      (Bool → ℕ → ℕ) → Bool → Bool → ℕ → ℕ → InstructionMemory → Outputs × InstructionMemory
  evaluate rom request0 request1 address0 address1 m =
      let rom_address0 : ℕ = if request0 then convert_address address0 else m.rom_address0 in
      let rom_address1 : ℕ = if request1 then convert_address address1 else m.rom_address1 in
      let enable = request0 || request1 in
      (
        record {
          response0 = request0;
          response1 = request1;
          instruction0 = rom enable rom_address0;
          instruction1 = rom enable rom_address1;
        },
        record { rom_address0 = rom_address0; rom_address1 = rom_address1 },
      )
