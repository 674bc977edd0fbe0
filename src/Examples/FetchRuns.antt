-- ===== src/Examples/FetchRuns.antt =====
-- A miss in a cache of two lines of two words, and redirects of the fetch side.
use cpu_cpp.Base.{ℕ, ◌+◌, ◌%◌, ◌^◌, ◌≡◌, refl, Bool, true, false, [], ◌∷◌, arith, if◌then◌else◌}
use cpu_cpp.Fetch.InstructionCache.{Geometry, blank_line}
use cpu_cpp.Fetch.CacheController.{State, Controller}
use cpu_cpp.Fetch.LineFill.{serve}
use cpu_cpp.Fetch.ProgramCounter.{LogicParts, LogicLaws}
use cpu_cpp.Fetch.Unit
use cpu_cpp.Fetch.Unit.{FetchBundle, FetchUnit, Ports}
use cpu_cpp.Fetch.DecodeReg
use cpu_cpp.Fetch.DecodeReg.{FetchDecodeReg, get_bundle}
use cpu_cpp.Fetch.Stream
use cpu_cpp.Fetch.Stream.{Presents, restart-Presents}
use cpu_cpp.Fetch.Latched
use cpu_cpp.Fetch.Latched.{narrowed, register_shows}
use cpu_cpp.Fetch.InstructionMemory
use cpu_cpp.Fetch.InstructionMemory.{Widths}
use cpu_cpp.Cpu.State.{Redirect}
use cpu_cpp.Cpu.FetchStage.{FetchSide, fetch_stage}
use cpu_cpp.Cpu.FetchFollows.{stages, fetch_stage_follows}
use cpu_cpp.Fetch.Refilled.{Served, serve_lem}

abbrev tiny : Geometry
tiny = record {
  address_width = 16;
  instruction_bytes = 4;
  num_lines = 2;
  instructions_per_line = 2;
}

abbrev waiting : Controller
waiting = record {
  state = State.idle;
  miss_address = 0;
  line_base = 0;
  refill_word = 0;
  refill_buffer = 0 ∷ 0 ∷ [];
  memory_address = 0;
  cache = blank_line tiny ∷ blank_line tiny ∷ [];
}

-- The miss is at the line's second word; the first answer takes three more cycles.
serve_lem_example : Served tiny (λ a. a + 100) 8 (serve tiny (λ a. a + 100) 12 (3 ∷ 0 ∷ []) waiting)
serve_lem_example =
    serve_lem tiny
      (record {
        bytes_pos = omega arith;
        words_pos = omega arith;
        words_counted = omega arith;
        lines_pos = omega arith;
      })
      (λ a. a + 100) waiting 12 8 (3 ∷ 0 ∷ [])
      (record { waits = refl; buffer_sized = refl; cache_sized = refl }) refl refl (omega arith)

-- A register as the value that it took in and the value that it shows.
abbrev flip_flop : Bool → ℕ → ℕ × ℕ → ℕ × ℕ
flip_flop true v r = (r.0, r.0)
flip_flop false v r = (v, r.1)

abbrev select_input : ℕ → ℕ → Bool → ℕ
select_input a b select = if select then b else a

abbrev ideal_parts : LogicParts
ideal_parts = record {
  Register = ℕ × ℕ;
  evaluate_register = flip_flop;
  register_output = λ r. r.1;
  mux = select_input;
  adder = λ a b. (a + b) % 2 ^ 32;
}

abbrev ideal_laws : LogicLaws 32 ideal_parts
ideal_laws = record {
  loaded = λ r. r.0;
  low_loads = λ v r. refl;
  low_keeps = λ v r. refl;
  high_shows = λ v r. refl;
  high_keeps = λ v r. refl;
  mux_low = λ a b. refl;
  mux_high = λ a b. refl;
  adder_is = λ a b h k. refl;
}

abbrev all_wired : Ports
all_wired = record { instruction_bytes = 4; stall_wired = true; redirect_wired = true }

abbrev fetching : Unit.Inputs
fetching = record {
  reset = false;
  stall = false;
  redirect = false;
  redirect_pc = 0;
  hit0 = true;
  hit1 = true;
  instruction0 = 7;
  instruction1 = 9;
}

abbrev powered_on : FetchUnit (ℕ × ℕ)
powered_on = record {
  pc_enable = true;
  program_counter = (0, 0);
  pc_next = 0;
  pc0 = 0;
  pc1 = 0;
  next_pc = 0;
  valid0 = false;
  valid1 = false;
}

-- Two pairs, a redirect to 256, a pair, a stall, and a pair.
restart-Presents_example : Presents 32 ideal_parts ideal_laws all_wired 272 (
    Stream.run 32 ideal_parts ideal_laws all_wired
      (fetching
        ∷ fetching
        ∷ record fetching { redirect = true; redirect_pc = 256 }
        ∷ fetching
        ∷ record fetching { stall = true }
        ∷ fetching
        ∷ [])
      powered_on)
restart-Presents_example =
    restart-Presents 32 ideal_parts ideal_laws all_wired (omega arith) (fetching ∷ fetching ∷ [])
      (fetching ∷ record fetching { stall = true } ∷ fetching ∷ [])
      (record fetching { redirect = true; redirect_pc = 256 }) powered_on 256 refl refl
      (omega arith) (refl, (refl, (refl, tt)))

abbrev latching : DecodeReg.Inputs
latching = record {
  reset = false;
  enable = true;
  flush = false;
  fetch = record {
    pc0 = 8;
    instruction0 = 7;
    valid0 = true;
    pc1 = 12;
    instruction1 = 9;
    valid1 = false;
  };
}

abbrev cleared : FetchDecodeReg (ℕ × ℕ)
cleared = record {
  pc0 = (0, 0);
  instruction0 = (0, 0);
  valid0 = (0, 0);
  pc1 = (0, 0);
  instruction1 = (0, 0);
  valid1 = (0, 0);
}

-- A flush, a pair, and a cycle that holds it.
register_shows_example :
    get_bundle ideal_parts (
      Latched.run 32 ideal_parts ideal_laws
        (record latching { flush = true } ∷ latching ∷ record latching { enable = false } ∷ [])
        cleared)
    ≡ latching.fetch
register_shows_example =
    register_shows 32 ideal_parts ideal_laws (record latching { flush = true } ∷ [])
      (record latching { enable = false } ∷ []) latching cleared refl (refl, tt)

abbrev words : Widths
words = record { rom_address_width = 8; instruction_bytes = 4 }

abbrev numbered_rom : Bool → ℕ → ℕ
numbered_rom enable address = if enable then 1000 + address else 0

abbrev at_zero : FetchSide (ℕ × ℕ)
at_zero = record {
  clock = true;
  fetch_unit = record powered_on { pc1 = 4; next_pc = 8 };
  imem = record { rom_address0 = 0; rom_address1 = 0 };
  fetch_inst0 = 0;
  fetch_inst1 = 0;
  fetch_hit0 = true;
  fetch_hit1 = true;
  fd_reg = cleared;
}

abbrev to_64 : Redirect
to_64 = record { active = true; redirect_pc = 64 }

-- A redirect to 64 and three cycles.
fetch_stage_follows_example :
    (get_bundle ideal_parts (fetch_stage ideal_parts words numbered_rom to_64 at_zero).fd_reg
      ≡ record {
        pc0 = 0;
        instruction0 = 0;
        valid0 = false;
        pc1 = 0;
        instruction1 = 0;
        valid1 = false;
      })
    × (get_bundle ideal_parts
          (stages ideal_parts ideal_laws words numbered_rom 3
            (fetch_stage ideal_parts words numbered_rom to_64 at_zero)).fd_reg
        ≡ record {
          pc0 = 80;
          instruction0 = 1020;
          valid0 = true;
          pc1 = 84;
          instruction1 = 1021;
          valid1 = true;
        })
unfolding InstructionMemory.shift_of
fetch_stage_follows_example =
    fetch_stage_follows ideal_parts ideal_laws words numbered_rom at_zero 0 64 2 (omega arith)
      (record {
        clock_high = refl;
        enabled = refl;
        loaded_is = refl;
        presents = record { pc_is = refl; pc0_is = refl; pc1_is = refl; next_pc_is = refl };
      })
