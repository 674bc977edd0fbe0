-- ===== src/Execute/Pipeline.antt =====
-- superscalar/core/execution/IntegerExecutionPipeline.hpp and ALUExecutionUnit.hpp, over
-- components/ALUInterface.hpp: up to two integer operations, their write-back, and commit.
-- `cap` is `ROBCapacity`.
use cpu_cpp.Base.{
  ℕ, zero, suc, ◌+◌, Bool, true, not, Option, none, some, List, [], ◌∷◌, if◌then◌else◌, length,
}
use cpu_cpp.Isa.{AluOperation, OperandSource}
use cpu_cpp.Rename.FreeList
use cpu_cpp.Rename.FreeList.{FreeList}
use cpu_cpp.Rename.RegisterFile
use cpu_cpp.Rename.RegisterFile.{RegisterFile}
use cpu_cpp.Rob.Entry.{Entry as RobEntry}
use cpu_cpp.Rob.Buffer
use cpu_cpp.Rob.Buffer.{Buffer}
use cpu_cpp.Issue.Queue
use cpu_cpp.Issue.Queue.{Entry, IssueQueue}
use cpu_cpp.Execute.Alu.{is_ready_alu}

pub record ExecuteResult : Type 0 where
  pub valid : Bool
  pub result : ℕ
  pub rob_index : ℕ
  pub physical_rd : ℕ

-- `logic::ALU<32>`: the result for a three-bit code and two operands.
abbrev pub Alu : Type 0
Alu = ℕ → ℕ → ℕ → ℕ

abbrev pub encode_operation : AluOperation → ℕ
encode_operation AluOperation.add = 0b000
encode_operation AluOperation.sub = 0b001
encode_operation AluOperation.and = 0b010
encode_operation AluOperation.or = 0b011
encode_operation AluOperation.xor = 0b100
encode_operation AluOperation.not = 0b101
encode_operation AluOperation.pass_a = 0b110
encode_operation AluOperation.pass_b = 0b111
encode_operation AluOperation.none = 0b000

abbrev pub operand_value : OperandSource → ℕ → ℕ → ℕ
operand_value OperandSource.register register_value immediate = register_value
operand_value OperandSource.immediate register_value immediate = immediate
operand_value OperandSource.none register_value immediate = 0
operand_value OperandSource.pc register_value immediate = 0

-- What the pipeline's references lead to.
pub record Pipeline : Type 0 where
  pub rob : Buffer
  pub issue_queue : IssueQueue
  pub prf : RegisterFile
  pub free_list : FreeList

pub record CycleResult : Type 0 where
  pub issued : ℕ
  pub retired : ℕ

-- The first loop of `cycle`, from slot `i` on: at most `n` ready slots.
unfoldable pub select_lanes : ℕ → ℕ → List Entry → List (ℕ × Entry)
select_lanes zero i es = []
select_lanes (suc n) i [] = []
select_lanes (suc n) i (e ∷ es) =
    let taken = select_lanes n (i + 1) es in
    let rest = select_lanes (suc n) (i + 1) es in if is_ready_alu e then (i, e) ∷ taken else rest

-- The second loop's removal of the selected slots.
unfoldable pub remove_all : List (ℕ × Entry) → IssueQueue → IssueQueue
remove_all [] q = q
remove_all ((i, e) ∷ rest) q = remove_all rest (Queue.remove q i)

-- `write_back` after the look-up of the entry.
unfoldable pub write_back_at : ℕ → Pipeline → ExecuteResult → Option RobEntry → Pipeline
write_back_at cap u executed none = u
write_back_at cap u executed (some entry) = if not entry.valid then u else record u {
  prf =
      if entry.register_write
      then RegisterFile.write u.prf executed.physical_rd executed.result
      else u.prf;
  issue_queue =
      if entry.register_write
      then Queue.wakeup u.issue_queue executed.physical_rd executed.result
      else u.issue_queue;
  rob = Buffer.complete cap u.rob executed.rob_index executed.result;
}

unfoldable pub write_back : ℕ → Pipeline → ExecuteResult → Pipeline
unfolding write_back_at
write_back cap u executed =
    if not executed.valid
    then u
    else write_back_at cap u executed (Buffer.entry cap u.rob executed.rob_index)

unfoldable pub write_back_all : ℕ → List ExecuteResult → Pipeline → Pipeline
unfolding write_back
write_back_all cap [] u = u
write_back_all cap (r ∷ rs) u = write_back_all cap rs (write_back cap u r)

-- The release of the register that a committed entry displaced.
unfoldable pub release_old : RobEntry → FreeList → FreeList
release_old e free = if e.register_write then FreeList.release free e.old_physical_rd else free

-- What `commit` returned, and the rounds after it.
unfoldable pub retire_one :
    (Pipeline → ℕ × Pipeline) → Pipeline → Option RobEntry × Buffer → ℕ × Pipeline
unfolding release_old
retire_one later u (none, rob) = (0, record u { rob = rob })
retire_one later u (some e, rob) =
    let (retired, u') = later (record u { rob = rob; free_list = release_old e u.free_list }) in
    (retired + 1, u')

-- The last loop, with at most `n` rounds: it ends where `commit` returns false.
unfoldable pub retire : ℕ → ℕ → Pipeline → ℕ × Pipeline
unfolding retire_one
retire cap zero u = (0, u)
retire cap (suc n) u = retire_one (retire cap n) u (Buffer.commit cap u.rob)

module _ (alu : Alu) where
  -- `execute_lane`, and the lane's `result_bundle`.
  unfoldable pub execute_lane : Entry → ExecuteResult
  execute_lane e = record {
    valid = true;
    result =
        alu (encode_operation e.alu_operation) (operand_value e.operand_a e.rs1_value e.immediate)
          (operand_value e.operand_b e.rs2_value e.immediate);
    rob_index = e.rob_index;
    physical_rd = e.physical_rd;
  }

  unfoldable pub execute_all : List (ℕ × Entry) → List ExecuteResult
  unfolding execute_lane
  execute_all [] = []
  execute_all ((i, e) ∷ rest) = execute_lane e ∷ execute_all rest

  unfoldable pub cycle : ℕ → Pipeline → CycleResult × Pipeline
  unfolding select_lanes remove_all write_back_all execute_all retire
  cycle cap u =
      let selected = select_lanes 2 0 u.issue_queue.entries in
      let u1 = record u { issue_queue = remove_all selected u.issue_queue } in
      let (retired, u2) = retire cap 2 (write_back_all cap (execute_all selected) u1) in
      (record { issued = length selected; retired = retired }, u2)
