-- ===== src/Examples/CoreRuns.antt =====
-- A small core that fetches ADDI and HALT, and words that it never executes.
use cpu_cpp.Base.{ℕ, ◌+◌, ◌*◌, ◌^◌, ◌≡◌, refl, true, false, none, [], ◌∷◌, arith, replicate}
use cpu_cpp.Rename.AliasTable.{AliasTable}
use cpu_cpp.Rename.RegisterFile.{blank_register}
use cpu_cpp.Rob.Buffer
use cpu_cpp.Issue.Queue
use cpu_cpp.Rob.Allocate.{reset-IsValid}
use cpu_cpp.Issue.Dispatch.{Dispatcher, dispatch}
use cpu_cpp.Branch.Recovery.{no_control}
use cpu_cpp.Decode.Instruction
use cpu_cpp.Cpu.State.{Sizes, Cpu, Fetched, no_redirect, reset}
use cpu_cpp.Cpu.Frontend.{front_stage}
use cpu_cpp.Cpu.Step.{cycle_once, run}
use cpu_cpp.Cpu.Parts.{IsValid}
use cpu_cpp.Cpu.Reachable.{Reachable, reachable-IsValid}
use cpu_cpp.Cpu.Termination.{Finished, run_finishes}
use cpu_cpp.Cpu.Stuck.{Stranded, bundle_of, unserved-Ignored}
use cpu_cpp.Cpu.Bubble.{front_stage_bubbles}
use cpu_cpp.Examples.ControlRuns.{binary_bus, word_hardware}

abbrev small : Sizes
small = record { rob_capacity = 4; lsq_capacity = 2; store_buffer_capacity = 2; table_size = 2 }

abbrev table : AliasTable
table = record { table = replicate 16 0; physical_reg_count = 20; checkpoints = [] }

abbrev powered : Cpu
powered = record {
  rob = Buffer.reset 4;
  issue_queue = record { entries = replicate 3 Queue.blank; count = 0 };
  prf = replicate 20 blank_register;
  arf = replicate 16 0;
  lsq = [];
  store_buffer = [];
  data_memory = replicate 4 0;
  free_list = [];
  rat = table;
  predictor = record { counters = []; btb = [] };
  retired_count = 0;
  retired_halt = false;
  control = no_control;
  stalled = false;
  cycles = 0;
  halted = false;
  halt_dispatched = false;
  branches_executed = 0;
  branch_mispredictions = 0;
}

-- addi r1, r0, 7 and halt
abbrev program : Fetched
program = record {
  pc0 = 0;
  instruction0 = 8 * 2 ^ 26 + 1 * 2 ^ 22 + 7;
  valid0 = true;
  pc1 = 4;
  instruction1 = 14 * 2 ^ 26;
  valid1 = true;
}

abbrev start : Cpu
start = reset small powered

abbrev dispatched : Cpu
dispatched = cycle_once small binary_bus word_hardware program start

abbrev dispatched_Reachable : Reachable small binary_bus word_hardware dispatched
dispatched_Reachable = Reachable.clocked program start (Reachable.after_reset powered)

reachable-IsValid_example : IsValid small dispatched
reachable-IsValid_example =
    reachable-IsValid small binary_bus word_hardware dispatched (omega arith) (omega arith)
      dispatched_Reachable

run_finishes_example :
    Finished small binary_bus word_hardware 9 start
      (run small binary_bus word_hardware 9 (λ _. program) 9 start)
    × (run small binary_bus word_hardware 12 (λ _. program) 9 start
        ≡ run small binary_bus word_hardware 9 (λ _. program) 9 start)
unfolding reset
run_finishes_example =
    run_finishes small binary_bus word_hardware 9 12 (λ _. program) 9 start (omega arith)
      (omega arith) (Reachable.after_reset powered) (omega arith) (omega arith)

-- A jump, and a word whose opcode has no name.
abbrev jump_word : ℕ
jump_word = 13 * 2 ^ 26 + 40

abbrev idle_dispatcher : Dispatcher
idle_dispatcher = record {
  rob = Buffer.reset 4;
  issue_queue = record { entries = Queue.blank ∷ Queue.blank ∷ []; count = 0 };
  prf = [];
}

unserved-Ignored_example :
    let r =
      dispatch 4 idle_dispatcher
        (bundle_of binary_bus idle_dispatcher.prf table idle_dispatcher.rob.tail 0 jump_word)
        none in
    (r.0 ≡ true) × Stranded 4 idle_dispatcher r.1
unfolding Instruction.opcode Instruction.wires Buffer.reset
unserved-Ignored_example =
    unserved-Ignored binary_bus table 4 0 jump_word idle_dispatcher refl
      (record {
        rob_valid = (reset-IsValid 4 (omega arith)).0;
        queue_valid = record { counted = refl };
      })
      (omega arith, omega arith)

front_stage_bubbles_example :
    front_stage small binary_bus (record program { valid0 = false; valid1 = false }) start
    ≡ record {
      decoded = 0;
      dispatched = 0;
      redirect = no_redirect;
      cpu = record start { stalled = false };
    }
front_stage_bubbles_example =
    front_stage_bubbles small binary_bus (record program { valid0 = false; valid1 = false }) start
      refl refl
