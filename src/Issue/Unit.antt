-- ===== src/Issue/Unit.antt =====
-- superscalar/core/issue/IssueUnit.hpp and superscalar/core/execution/ExecutionRequest.hpp: up to
-- `issue_width` ready instructions leave the queue in a cycle.
use cpu_cpp.Base.{ℕ, zero, suc, Bool, true, Option, none, some, List, [], ◌∷◌, get_or}
use cpu_cpp.Isa.{Opcode, AluOperation, OperandSource, ControlFlow}
use cpu_cpp.Issue.Queue
use cpu_cpp.Issue.Queue.{Entry, IssueQueue, select_ready, mark_issued}

pub record ExecutionRequest : Type 0 where
  pub valid : Bool
  pub pc : ℕ
  pub instruction : ℕ
  pub opcode : Opcode
  pub physical_rs1 : ℕ
  pub physical_rs2 : ℕ
  pub physical_rd : ℕ
  pub rs1_value : ℕ
  pub rs2_value : ℕ
  pub immediate : ℕ
  pub alu_operation : AluOperation
  pub operand_a : OperandSource
  pub operand_b : OperandSource
  pub memory_read : Bool
  pub memory_write : Bool
  pub control_flow : ControlFlow
  pub rob_index : ℕ
  pub halt : Bool
  pub predicted_taken : Bool
  pub predicted_target : ℕ

unfoldable pub request_of : Entry → ExecutionRequest
request_of e = record {
  valid = true;
  pc = e.pc;
  instruction = e.instruction;
  opcode = e.opcode;
  physical_rs1 = e.physical_rs1;
  physical_rs2 = e.physical_rs2;
  physical_rd = e.physical_rd;
  rs1_value = e.rs1_value;
  rs2_value = e.rs2_value;
  immediate = e.immediate;
  alu_operation = e.alu_operation;
  operand_a = e.operand_a;
  operand_b = e.operand_b;
  memory_read = e.memory_read;
  memory_write = e.memory_write;
  control_flow = e.control_flow;
  rob_index = e.rob_index;
  halt = e.halt;
  predicted_taken = e.predicted_taken;
  predicted_target = e.predicted_target;
}

-- One round of `issue`, for the slot that was selected.
unfoldable pub take_out : IssueQueue → ℕ → IssueQueue
unfolding mark_issued Queue.remove
take_out q i = Queue.remove (mark_issued q i) i

-- One round of `issue`, the slot that `select_ready` gave and the rounds after it.
unfoldable pub issue_round :
    (IssueQueue → List ExecutionRequest × IssueQueue)
    → IssueQueue
    → Option ℕ
    → List ExecutionRequest × IssueQueue
unfolding take_out request_of
issue_round later q none = ([], q)
issue_round later q (some i) =
    let (requests, q') = later (take_out q i) in
    (request_of (get_or q.entries i Queue.blank) ∷ requests, q')

-- The loop of `issue`, `n` rounds.
unfoldable pub issue : ℕ → IssueQueue → List ExecutionRequest × IssueQueue
unfolding select_ready issue_round
issue zero q = ([], q)
issue (suc n) q = issue_round (issue n) q (select_ready q)
