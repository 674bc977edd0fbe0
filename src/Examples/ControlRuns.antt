-- ===== src/Examples/ControlRuns.antt =====
-- A load through the decoder, the control units, the hazard unit and the branch unit.
use cpu_cpp.Base.{◌+◌, ◌-◌, ◌*◌, ◌%◌, ◌^◌, ◌≡◌, refl, true, false, arith, ◌==◌, if◌then◌else◌}
use cpu_cpp.Isa.{Opcode, InstructionFormat, DecodedInstruction}
use cpu_cpp.Decode.Instruction.{BusLogic}
use cpu_cpp.Decode.Decoder
use cpu_cpp.Decode.Unit
use cpu_cpp.Decode.Fields.{BusLaws, bit, value}
use cpu_cpp.Decode.RoundTrip.{encode, IsEncodable, decode-encode}
use cpu_cpp.Control.SingleCycle
use cpu_cpp.Control.Pipelined
use cpu_cpp.Control.MultiCycle.{State, Fsm}
use cpu_cpp.Control.MultiCycle.Cycles.{run, trace, Executed, instruction_executes}
use cpu_cpp.Control.Agree.{SamePipelined, SameBundle, empty_bundle, control_units_agree}
use cpu_cpp.Hazard
use cpu_cpp.Hazard.{Inputs, Mux3, Mux3Laws}
use cpu_cpp.Execute.Branch
use cpu_cpp.Execute.Branch.{BranchHardware, BranchInput}
use cpu_cpp.Execute.Branch.Checked
use cpu_cpp.Execute.Branch.Checked.{BranchLaws, IsWord}

abbrev pub binary_bus : BusLogic
binary_bus = record { wire = bit; read_value = value }

abbrev binary_laws : BusLaws binary_bus
binary_laws = record { wire_is_bit = λ v i. refl; read_value_is = λ bs. refl }

-- lw r3, -4(r5)
abbrev load : DecodedInstruction
load = record {
  opcode = Opcode.lw;
  format = InstructionFormat.i_type;
  rd = 3;
  rs1 = 5;
  rs2 = 0;
  immediate = 0xFFFF_FFFC;
}

load-IsEncodable : IsEncodable load
load-IsEncodable = record {
  named = refl;
  six_bits = omega arith;
  formatted = refl;
  rd_small = omega arith;
  rs1_small = omega arith;
  rs2_small = omega arith;
  fits = (refl, refl);
}

decode-encode_example : Decoder.decode binary_bus (encode load) ≡ load
decode-encode_example = decode-encode binary_bus binary_laws load load-IsEncodable

load_word : encode load ≡ 0x24D7_FFFC
load_word = refl

abbrev fetching : Fsm
fetching = record { current_state = State.fetch; next_state = State.fetch }

instruction_executes_example :
    Executed false (SingleCycle.generate load) (run 5 fetching load) (trace 5 fetching load)
instruction_executes_example = instruction_executes fetching load refl

control_units_agree_example :
    SamePipelined (SingleCycle.generate load) (Pipelined.generate load)
    × SameBundle (SingleCycle.generate load) (Unit.fill load (empty_bundle 8 0x24D7_FFFC))
control_units_agree_example = control_units_agree load 8 0x24D7_FFFC

abbrev two_wires : Mux3
two_wires low high a b c = if high then c else (if low then b else a)

abbrev two_wires_laws : Mux3Laws two_wires
two_wires_laws = record { first = λ a b c. refl; second = λ a b c. refl; third = λ a b c. refl }

-- Both older instructions write register 3, and the next one needs the load in EX.
abbrev hazard : Inputs
hazard = record {
  ra1_d = 4;
  ra2_d = 1;
  ra1_e = 3;
  ra2_e = 7;
  wa3_e = 4;
  mem_to_reg_e = true;
  branch_taken_e = false;
  wa3_m = 3;
  reg_write_m = true;
  wa3_w = 3;
  reg_write_w = true;
}

hazards_resolve_example :
    Hazard.Resolved two_wires hazard (Hazard.evaluate hazard) (λ r. r * 10) 111 222
hazards_resolve_example =
    Hazard.hazards_resolve two_wires two_wires_laws hazard (λ r. r * 10) 111 222

abbrev pub word_hardware : BranchHardware
word_hardware = record {
  adder_sum = λ a b. (a + b) % 2 ^ 32;
  sub_zero = λ a b. (a + 2 ^ 32 - b) % 2 ^ 32 == 0;
}

abbrev word_laws : BranchLaws word_hardware
word_laws = record { adder_sum_is = λ a b p q. refl; sub_zero_is = λ a b p q. refl }

-- A backward branch that was predicted taken to another place.
abbrev loop_branch : BranchInput
loop_branch = record {
  opcode = Opcode.bne;
  pc = 40;
  operand_a = 1;
  operand_b = 2;
  immediate = 0xFFFF_FFF0;
  rob_index = 3;
  predicted_taken = true;
  predicted_target = 48;
}

branch_resolves_example : Checked.Resolved loop_branch (Branch.evaluate word_hardware loop_branch)
branch_resolves_example = Checked.branch_resolves word_hardware word_laws loop_branch (record {
  pc_small = omega arith;
  a_small = omega arith;
  b_small = omega arith;
  immediate_small = omega arith;
})
