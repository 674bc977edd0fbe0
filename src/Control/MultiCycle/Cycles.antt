-- ===== src/Control/MultiCycle/Cycles.antt =====
-- What the multi-cycle state machine drives over the cycles of an instruction, beside the signals
-- of the single-cycle control unit.
use cpu_cpp.Base.{
  ℕ, zero, suc, ◌≡◌, refl, sym, Bool, true, false, ◌&&◌, ◌||◌, List, [], ◌∷◌, map, if◌then◌else◌,
}
use mathlib.Core.Path.{subst}
use cpu_cpp.Isa.{Opcode, AluOperation, DecodedInstruction}
use cpu_cpp.Control.SingleCycle
use cpu_cpp.Control.MultiCycle.{
  State, Fsm, AluSrcA, AluSrcB, PcSource, WriteBackSource, MultiCycleControlSignals, generate,
  update_next_state, clock, step,
}

abbrev pub cycles_of : Opcode → ℕ
cycles_of Opcode.nop = 2
cycles_of Opcode.lw = 5
cycles_of Opcode.beq = 3
cycles_of Opcode.bne = 3
cycles_of Opcode.j = 3
cycles_of Opcode.halt = 2
cycles_of (Opcode.unnamed n) = 2
cycles_of _ = 4

-- The machine after `n` cycles, and the signals of those cycles, while the instruction register
-- holds the instruction.
abbrev pub run : ℕ → Fsm → DecodedInstruction → Fsm
run zero m instruction = m
run (suc n) m instruction = run n (step m instruction) instruction

abbrev pub trace : ℕ → Fsm → DecodedInstruction → List MultiCycleControlSignals
trace zero m instruction = []
trace (suc n) m instruction = generate m instruction ∷ trace n (step m instruction) instruction

-- What a cycle does in the datapath.
pub data Effect : Type 0 where
  latch_instruction latch_a latch_b latch_alu_out latch_memory_data : Effect
  -- At the address of ALUOut, or else at the pc.
  read_memory write_memory : Bool → Effect
  compute : AluOperation → AluSrcA → AluSrcB → Effect
  set_pc : PcSource → Effect
  -- Where the operands differ, or else where they agree.
  set_pc_if : Bool → PcSource → Effect
  -- To the register that the destination line chooses.
  write_register : Bool → WriteBackSource → Effect

abbrev when : Bool → Effect → List Effect → List Effect
when b e es = if b then e ∷ es else es

abbrev is_alu_result : PcSource → Bool
is_alu_result PcSource.alu_result = true
is_alu_result _ = false

-- The effects that the signals of a cycle have; the ALU counts where its result goes somewhere.
abbrev pub effects_of : MultiCycleControlSignals → List Effect
effects_of c =
    let uses_alu =
      c.alu_out_write || c.pc_write_cond || (c.pc_write && is_alu_result c.pc_source) in
    when c.mem_read (Effect.read_memory c.ior_d) (
      when c.ir_write Effect.latch_instruction (
        when c.mdr_write Effect.latch_memory_data (
          when c.a_write Effect.latch_a (
            when c.b_write Effect.latch_b (
              when uses_alu (Effect.compute c.alu_operation c.alu_src_a c.alu_src_b) (
                when c.alu_out_write Effect.latch_alu_out (
                  when c.pc_write (Effect.set_pc c.pc_source) (
                    when c.pc_write_cond (Effect.set_pc_if c.bne c.pc_source) (
                      when c.mem_write (Effect.write_memory c.ior_d) (
                        when c.reg_write (Effect.write_register c.reg_dst c.writeback_source)
                          []))))))))))

abbrev fetch_effects : List Effect
fetch_effects =
    Effect.read_memory false
    ∷ Effect.latch_instruction
    ∷ Effect.compute AluOperation.add AluSrcA.pc AluSrcB.constant
    ∷ Effect.set_pc PcSource.alu_result
    ∷ []

-- The operands, and the branch target into ALUOut.
abbrev decode_effects : List Effect
decode_effects =
    Effect.latch_a
    ∷ Effect.latch_b
    ∷ Effect.compute AluOperation.add AluSrcA.pc AluSrcB.sign_extend
    ∷ Effect.latch_alu_out
    ∷ []

-- The access or the write-back that follows the operation.
abbrev finish_effects : SingleCycle.ControlSignals → List (List Effect)
finish_effects s =
    if s.memory_write
    then (Effect.write_memory true ∷ []) ∷ []
    else (if s.memory_read
        then (Effect.read_memory true ∷ Effect.latch_memory_data ∷ [])
          ∷ (Effect.write_register true WriteBackSource.memory_data ∷ [])
          ∷ []
        else (Effect.write_register true WriteBackSource.alu_out ∷ []) ∷ [])

-- What the cycles after the operands' have to do for the signals of the single-cycle unit.
abbrev execute_effects : Bool → SingleCycle.ControlSignals → List (List Effect)
execute_effects differ s =
    if s.jump
    then (Effect.set_pc PcSource.jump_target ∷ []) ∷ []
    else (if s.branch
        then (Effect.compute s.alu_operation AluSrcA.reg_a AluSrcB.reg_b
            ∷ Effect.set_pc_if differ PcSource.alu_out
            ∷ [])
          ∷ []
        else (if s.register_write || s.memory_write
            then (Effect.compute s.alu_operation AluSrcA.reg_a
                  (if s.alu_source_immediate then AluSrcB.sign_extend else AluSrcB.reg_b)
                ∷ Effect.latch_alu_out
                ∷ [])
              ∷ finish_effects s
            else []))

-- A branch is taken where the operands differ, or else where they agree.
abbrev pub on_difference : Opcode → Bool
on_difference Opcode.bne = true
on_difference _ = false

abbrev pub expected : Bool → SingleCycle.ControlSignals → List (List Effect)
expected differ s = fetch_effects ∷ decode_effects ∷ execute_effects differ s

-- Over the cycles `t`, ending in `m`, the machine has the expected effects, cycle by cycle.
pub record Executed (differ : Bool) (s : SingleCycle.ControlSignals) (m : Fsm)
    (t : List MultiCycleControlSignals) : Type 0 where
  pub ended : m.current_state ≡ (if s.halt then State.halt else State.fetch)
  pub effects : map effects_of t ≡ expected differ s

module _ (next : State) (instruction : DecodedInstruction) where
  abbrev fetching : Fsm
  fetching = record { current_state = State.fetch; next_state = next }

  abbrev Executes : Opcode → Type 0
  Executes opcode =
      let i : DecodedInstruction = record instruction { opcode = opcode } in
      Executed (on_difference opcode) (SingleCycle.generate i) (run (cycles_of opcode) fetching i)
        (trace (cycles_of opcode) fetching i)

  by_cases : (opcode : Opcode) → Executes opcode
  unfolding generate update_next_state clock step SingleCycle.generate
  by_cases Opcode.nop = record { ended = refl; effects = refl }
  by_cases Opcode.add = record { ended = refl; effects = refl }
  by_cases Opcode.sub = record { ended = refl; effects = refl }
  by_cases Opcode.and = record { ended = refl; effects = refl }
  by_cases Opcode.or = record { ended = refl; effects = refl }
  by_cases Opcode.xor = record { ended = refl; effects = refl }
  by_cases Opcode.not = record { ended = refl; effects = refl }
  by_cases Opcode.li = record { ended = refl; effects = refl }
  by_cases Opcode.addi = record { ended = refl; effects = refl }
  by_cases Opcode.lw = record { ended = refl; effects = refl }
  by_cases Opcode.sw = record { ended = refl; effects = refl }
  by_cases Opcode.beq = record { ended = refl; effects = refl }
  by_cases Opcode.bne = record { ended = refl; effects = refl }
  by_cases Opcode.j = record { ended = refl; effects = refl }
  by_cases Opcode.halt = record { ended = refl; effects = refl }
  by_cases (Opcode.unnamed n) = record { ended = refl; effects = refl }

-- From FETCH, with any next state latched, an instruction takes `cycles_of` its opcode, and in each
-- of these cycles the datapath is driven to do exactly what the signals of the single-cycle unit
-- ask for: fetch; the operands and the branch target; the operation of the single-cycle unit on
-- its operands; then the access of a load or store at the result, and the write-back of the loaded
-- word or the result, or for a branch the conditional jump, on a difference for BNE and on agreement
-- for BEQ, or the jump. Then the machine is in FETCH again, or in HALT where the single-cycle unit
-- halts.
pub instruction_executes :
    (m : Fsm) (instruction : DecodedInstruction)
    → m.current_state ≡ State.fetch
    → Executed
        (on_difference instruction.opcode)
        (SingleCycle.generate instruction)
        (run (cycles_of instruction.opcode) m instruction)
        (trace (cycles_of instruction.opcode) m instruction)
instruction_executes m instruction h =
    subst
      (λ c.
        Executed (on_difference instruction.opcode) (SingleCycle.generate instruction)
          (run (cycles_of instruction.opcode) (record m { current_state = c }) instruction)
          (trace (cycles_of instruction.opcode) (record m { current_state = c }) instruction))
      (sym h) (by_cases m.next_state instruction instruction.opcode)
