-- ===== src/Issue/Dispatch.antt =====
-- superscalar/core/dispatch/DispatchUnit.hpp: a renamed instruction enters the reorder buffer and
-- the issue queue. The unit's pointers to the queue and the register file are not null, as its one
-- constructor sets them.
use cpu_cpp.Base.{
  ℕ, ◌+◌, Bool, true, false, not, ◌||◌, Option, none, some, leb, ◌==◌, if◌then◌else◌, size_minus,
  length,
}
use cpu_cpp.Isa.{is_register}
use cpu_cpp.Rename.AliasTable.{Checkpoint}
use cpu_cpp.Rename.Bundle.{RenameBundle}
use cpu_cpp.Rename.RegisterFile
use cpu_cpp.Rename.RegisterFile.{RegisterFile}
use cpu_cpp.Rob.Buffer
use cpu_cpp.Rob.Buffer.{Buffer}
use cpu_cpp.Issue.Queue
use cpu_cpp.Issue.Queue.{Entry, IssueQueue}

-- What the unit's references and pointers lead to.
pub record Dispatcher : Type 0 where
  pub rob : Buffer
  pub issue_queue : IssueQueue
  pub prf : RegisterFile

unfoldable pub make_issue_entry : RegisterFile → RenameBundle → ℕ → Entry
make_issue_entry prf bundle rob_index =
    let reads2 = is_register bundle.operand_b || bundle.memory_write in
    record (Queue.blank) {
      valid = bundle.valid;
      pc = bundle.pc;
      instruction = bundle.instruction;
      opcode = bundle.opcode;
      physical_rd = bundle.physical_rd;
      physical_rs1 = bundle.physical_rs1;
      physical_rs2 = bundle.physical_rs2;
      immediate = bundle.immediate;
      alu_operation = bundle.alu_operation;
      operand_a = bundle.operand_a;
      operand_b = bundle.operand_b;
      register_write = bundle.register_write;
      memory_read = bundle.memory_read;
      memory_write = bundle.memory_write;
      control_flow = bundle.control_flow;
      rob_index = rob_index;
      predicted_taken = bundle.prediction.predicted_taken;
      predicted_target = bundle.prediction.predicted_target;
      halt = bundle.halt;
      rs1_ready =
          if is_register bundle.operand_a then RegisterFile.ready prf bundle.physical_rs1 else true;
      rs1_value =
          if is_register bundle.operand_a then RegisterFile.read prf bundle.physical_rs1 else 0;
      rs2_ready = if reads2 then RegisterFile.ready prf bundle.physical_rs2 else true;
      rs2_value = if reads2 then RegisterFile.read prf bundle.physical_rs2 else 0;
    }

-- The insertion, with the index that the reorder buffer gave.
unfoldable pub enqueue : Dispatcher → RenameBundle → Option ℕ × Buffer → Bool × Dispatcher
unfolding make_issue_entry
enqueue d input (none, rob) = (false, record d { rob = rob })
enqueue d input (some rob_index, rob) =
    let (ok, q) = Queue.insert d.issue_queue (make_issue_entry d.prf input rob_index) in
    (ok, record d { rob = rob; issue_queue = q })

-- `dispatch(input, rob_index, checkpoint)`; the index is that of the reorder buffer's tail.
unfoldable pub dispatch : ℕ → Dispatcher → RenameBundle → Option Checkpoint → Bool × Dispatcher
unfolding enqueue
dispatch cap d input checkpoint =
    if not input.valid
    then (true, d)
    else (if Buffer.is_full cap d.rob || Queue.is_full d.issue_queue
        then (false, d)
        else enqueue d input (Buffer.allocate cap d.rob input checkpoint))

abbrev pub one_if : Bool → ℕ
one_if b = if b then 1 else 0

-- Lane 1 of the two-wide dispatch, after lane 0.
unfoldable pub dispatch_lane1 : ℕ → RenameBundle → Bool × Dispatcher → Bool × Dispatcher
unfolding dispatch
dispatch_lane1 cap input1 (ok, d) = if not ok then (false, d) else dispatch cap d input1 none

unfoldable pub dispatch_both : ℕ → Dispatcher → RenameBundle → RenameBundle → Bool × Dispatcher
unfolding dispatch_lane1
dispatch_both cap d input0 input1 =
    let valid_count = one_if input0.valid + one_if input1.valid in
    if valid_count == 0
    then (true, d)
    else (if not (leb valid_count (size_minus cap d.rob.count))
          || not (leb valid_count (size_minus (length d.issue_queue.entries) d.issue_queue.count))
        then (false, d)
        else dispatch_lane1 cap input1 (dispatch cap d input0 none))
