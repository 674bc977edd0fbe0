-- ===== src/Control/MultiCycle.antt =====
-- multi_cycle_cpu/core/FSMControlUnit.hpp and ControlSignals.hpp: the state machine that takes an
-- instruction through its cycles.
pub mod Cycles
use cpu_cpp.Base.{Bool, true, false, not}
use cpu_cpp.Isa.{Opcode, AluOperation, DecodedInstruction}

pub data State : Type 0 where
  fetch decode mem_addr mem_read mem_wb mem_write execute_r alu_wb : State
  execute_i branch jump halt : State

pub data AluSrcA : Type 0 where
  pc reg_a : AluSrcA

pub data AluSrcB : Type 0 where
  reg_b constant sign_extend shifted : AluSrcB

pub data PcSource : Type 0 where
  alu_result alu_out jump_target : PcSource

pub data WriteBackSource : Type 0 where
  alu_out memory_data : WriteBackSource

pub record MultiCycleControlSignals : Type 0 where
  pub pc_write : Bool
  pub pc_write_cond : Bool
  pub bne : Bool
  pub ir_write : Bool
  pub mdr_write : Bool
  pub a_write : Bool
  pub b_write : Bool
  pub alu_out_write : Bool
  pub reg_write : Bool
  pub mem_write : Bool
  pub mem_read : Bool
  pub ior_d : Bool
  pub reg_dst : Bool
  pub halt : Bool
  pub alu_src_a : AluSrcA
  pub alu_src_b : AluSrcB
  pub pc_source : PcSource
  pub writeback_source : WriteBackSource
  pub alu_operation : AluOperation

abbrev idle : MultiCycleControlSignals
idle = record {
  pc_write = false;
  pc_write_cond = false;
  bne = false;
  ir_write = false;
  mdr_write = false;
  a_write = false;
  b_write = false;
  alu_out_write = false;
  reg_write = false;
  mem_write = false;
  mem_read = false;
  ior_d = false;
  reg_dst = true;
  halt = false;
  alu_src_a = AluSrcA.pc;
  alu_src_b = AluSrcB.reg_b;
  pc_source = PcSource.alu_result;
  writeback_source = WriteBackSource.alu_out;
  alu_operation = AluOperation.add;
}

pub record Fsm : Type 0 where
  pub current_state : State
  pub next_state : State

abbrev pub reset : Fsm → Fsm
reset m = record m { current_state = State.fetch; next_state = State.fetch }

abbrev pub is_halt : State → Bool
is_halt State.halt = true
is_halt _ = false

abbrev pub is_halted : Fsm → Bool
is_halted m = is_halt m.current_state

abbrev to_alu_operation : Opcode → AluOperation
to_alu_operation Opcode.add = AluOperation.add
to_alu_operation Opcode.sub = AluOperation.sub
to_alu_operation Opcode.and = AluOperation.and
to_alu_operation Opcode.or = AluOperation.or
to_alu_operation Opcode.xor = AluOperation.xor
to_alu_operation Opcode.not = AluOperation.not
to_alu_operation _ = AluOperation.add

-- The operation of `EXECUTE_I`.
abbrev immediate_operation : Opcode → AluOperation
immediate_operation Opcode.li = AluOperation.pass_b
immediate_operation _ = AluOperation.add

abbrev is_bne : Opcode → Bool
is_bne Opcode.bne = true
is_bne _ = false

-- The `switch` of `generate`.
abbrev signals_in : State → Opcode → MultiCycleControlSignals
signals_in State.fetch opcode = record idle {
  mem_read = true;
  ir_write = true;
  ior_d = false;
  alu_src_a = AluSrcA.pc;
  alu_src_b = AluSrcB.constant;
  alu_operation = AluOperation.add;
  pc_write = true;
  pc_source = PcSource.alu_result;
}
signals_in State.decode opcode = record idle {
  a_write = true;
  b_write = true;
  alu_out_write = true;
  alu_src_a = AluSrcA.pc;
  alu_src_b = AluSrcB.sign_extend;
  alu_operation = AluOperation.add;
}
signals_in State.mem_addr opcode = record idle {
  alu_src_a = AluSrcA.reg_a;
  alu_src_b = AluSrcB.sign_extend;
  alu_operation = AluOperation.add;
  alu_out_write = true;
}
signals_in State.mem_read opcode = record idle { mem_read = true; mdr_write = true; ior_d = true }
signals_in State.mem_wb opcode = record idle {
  reg_write = true;
  reg_dst = true;
  writeback_source = WriteBackSource.memory_data;
}
signals_in State.mem_write opcode = record idle { mem_write = true; ior_d = true }
signals_in State.execute_r opcode = record idle {
  alu_src_a = AluSrcA.reg_a;
  alu_src_b = AluSrcB.reg_b;
  alu_operation = to_alu_operation opcode;
  alu_out_write = true;
}
signals_in State.execute_i opcode = record idle {
  alu_src_a = AluSrcA.reg_a;
  alu_src_b = AluSrcB.sign_extend;
  alu_operation = immediate_operation opcode;
  alu_out_write = true;
}
signals_in State.alu_wb opcode = record idle {
  reg_write = true;
  reg_dst = true;
  writeback_source = WriteBackSource.alu_out;
}
signals_in State.branch opcode = record idle {
  alu_src_a = AluSrcA.reg_a;
  alu_src_b = AluSrcB.reg_b;
  alu_operation = AluOperation.sub;
  pc_write_cond = true;
  bne = is_bne opcode;
  pc_source = PcSource.alu_out;
}
signals_in State.jump opcode = record idle { pc_write = true; pc_source = PcSource.jump_target }
signals_in State.halt opcode = record idle { halt = true }

unfoldable pub generate : Fsm → DecodedInstruction → MultiCycleControlSignals
generate m instruction = signals_in m.current_state instruction.opcode

-- The inner `switch`, of `DECODE`.
abbrev after_decode : Opcode → State
after_decode Opcode.add = State.execute_r
after_decode Opcode.sub = State.execute_r
after_decode Opcode.and = State.execute_r
after_decode Opcode.or = State.execute_r
after_decode Opcode.xor = State.execute_r
after_decode Opcode.not = State.execute_r
after_decode Opcode.lw = State.mem_addr
after_decode Opcode.sw = State.mem_addr
after_decode Opcode.li = State.execute_i
after_decode Opcode.addi = State.execute_i
after_decode Opcode.beq = State.branch
after_decode Opcode.bne = State.branch
after_decode Opcode.j = State.jump
after_decode Opcode.halt = State.halt
after_decode _ = State.fetch

-- The `if` of `MEM_ADDR`.
abbrev after_mem_addr : Opcode → State
after_mem_addr Opcode.lw = State.mem_read
after_mem_addr _ = State.mem_write

abbrev after : State → Opcode → State
after State.fetch opcode = State.decode
after State.decode opcode = after_decode opcode
after State.mem_addr opcode = after_mem_addr opcode
after State.mem_read opcode = State.mem_wb
after State.mem_wb opcode = State.fetch
after State.mem_write opcode = State.fetch
after State.alu_wb opcode = State.fetch
after State.branch opcode = State.fetch
after State.jump opcode = State.fetch
after State.execute_r opcode = State.alu_wb
after State.execute_i opcode = State.alu_wb
after State.halt opcode = State.halt

unfoldable pub update_next_state : Fsm → DecodedInstruction → Fsm
update_next_state m instruction = record m { next_state = after m.current_state instruction.opcode }

unfoldable pub clock : Fsm → Fsm
clock m = record m { current_state = m.next_state }

unfoldable pub step : Fsm → DecodedInstruction → Fsm
unfolding update_next_state clock
step m instruction = clock (update_next_state m instruction)
