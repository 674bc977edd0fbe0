-- ===== src/Issue/Queue.antt =====
-- superscalar/core/issue/IssueQueue.hpp and IssueQueueEntry.hpp: the unordered pool of waiting
-- instructions. `Capacity` is the length of the array. A pointer into the array is its index.
use cpu_cpp.Base.{
  ℕ, zero, suc, ◌+◌, ◌-◌, ◌^◌, Bool, true, false, not, ◌&&◌, ◌||◌, Option, none, some, List, [],
  ◌∷◌, map, leb, ◌==◌, if◌then◌else◌, length, get_or, set, replicate, contains,
}
use cpu_cpp.Isa.{Opcode, AluOperation, OperandSource, ControlFlow}

pub record Entry : Type 0 where
  pub valid : Bool
  pub issued : Bool
  pub pc : ℕ
  pub instruction : ℕ
  pub opcode : Opcode
  pub physical_rs1 : ℕ
  pub physical_rs2 : ℕ
  pub physical_rd : ℕ
  pub rs1_ready : Bool
  pub rs2_ready : Bool
  pub rs1_value : ℕ
  pub rs2_value : ℕ
  pub immediate : ℕ
  pub alu_operation : AluOperation
  pub alu_operand : AluOperation
  pub operand_a : OperandSource
  pub operand_b : OperandSource
  pub register_write : Bool
  pub memory_read : Bool
  pub memory_write : Bool
  pub control_flow : ControlFlow
  pub rob_index : ℕ
  pub predicted_taken : Bool
  pub predicted_target : ℕ
  pub halt : Bool

abbrev pub blank : Entry
blank = record {
  valid = false;
  issued = false;
  pc = 0;
  instruction = 0;
  opcode = Opcode.nop;
  physical_rs1 = 0;
  physical_rs2 = 0;
  physical_rd = 0;
  rs1_ready = false;
  rs2_ready = false;
  rs1_value = 0;
  rs2_value = 0;
  immediate = 0;
  alu_operation = AluOperation.none;
  alu_operand = AluOperation.none;
  operand_a = OperandSource.none;
  operand_b = OperandSource.none;
  register_write = false;
  memory_read = false;
  memory_write = false;
  control_flow = ControlFlow.none;
  rob_index = 0;
  predicted_taken = false;
  predicted_target = 0;
  halt = false;
}

pub record IssueQueue : Type 0 where
  pub entries : List Entry
  pub count : ℕ

-- `--count_` on a `size_t`.
unfoldable pub decrement : ℕ → ℕ
decrement zero = 2 ^ 64 - 1
decrement (suc n) = n

abbrev pub is_full : IssueQueue → Bool
is_full q = q.count == length q.entries

-- The loop of `insert`: the first free slot.
unfoldable pub put : List Entry → Entry → Bool × List Entry
put [] entry = (false, [])
put (e ∷ es) entry =
    let (ok, es') = put es entry in if not e.valid then (true, entry ∷ es) else (ok, e ∷ es')

unfoldable pub insert : IssueQueue → Entry → Bool × IssueQueue
unfolding put
insert q entry =
    if is_full q
    then (false, q)
    else (let (ok, es) = put q.entries (record entry { valid = true }) in
        if ok then (true, record { entries = es; count = q.count + 1 }) else (false, q))

abbrev pub is_ready : Entry → Bool
is_ready e = e.valid && not e.issued && (e.rs1_ready && e.rs2_ready)

-- The loop of `select_ready`, from slot `i` on.
unfoldable pub select_from : ℕ → List Entry → Option ℕ
select_from i [] = none
select_from i (e ∷ es) = let rest = select_from (i + 1) es in if is_ready e then some i else rest

unfoldable pub select_ready : IssueQueue → Option ℕ
unfolding select_from
select_ready q = select_from 0 q.entries

unfoldable pub mark_issued : IssueQueue → ℕ → IssueQueue
mark_issued q index =
    let e = get_or q.entries index blank in
    if leb (length q.entries) index || not e.valid
    then q
    else record q { entries = set q.entries index (record e { issued = true }) }

unfoldable pub remove : IssueQueue → ℕ → IssueQueue
unfolding decrement
remove q index =
    let e = get_or q.entries index blank in
    if leb (length q.entries) index || not e.valid
    then q
    else record { entries = set q.entries index blank; count = decrement q.count }

-- The body of the loop of `wakeup`: one source, then the other.
abbrev pub wake1 : ℕ → ℕ → Entry → Entry
wake1 physical_register v e =
    if not e.rs1_ready && e.physical_rs1 == physical_register
    then record e { rs1_value = v; rs1_ready = true }
    else e

abbrev pub wake2 : ℕ → ℕ → Entry → Entry
wake2 physical_register v e =
    if not e.rs2_ready && e.physical_rs2 == physical_register
    then record e { rs2_value = v; rs2_ready = true }
    else e

abbrev pub wake : ℕ → ℕ → Entry → Entry
wake physical_register v e =
    if not e.valid then e else wake2 physical_register v (wake1 physical_register v e)

unfoldable pub wakeup : IssueQueue → ℕ → ℕ → IssueQueue
wakeup q physical_register v = record q { entries = map (wake physical_register v) q.entries }

unfoldable pub reset : IssueQueue → IssueQueue
reset q = record { entries = replicate (length q.entries) blank; count = 0 }

-- The loop of `squash`: how many left, the count and the array.
unfoldable pub squash_from : List Entry → List ℕ → ℕ → ℕ × ℕ × List Entry
unfolding decrement
squash_from [] rob_indices count = (0, count, [])
squash_from (e ∷ es) rob_indices count =
    let gone = e.valid && contains e.rob_index rob_indices in
    let (removed, count', es') =
      squash_from es rob_indices (if gone then decrement count else count) in
    (if gone then removed + 1 else removed, count', (if gone then blank else e) ∷ es')

-- `squash(rob_indices)`: how many entries left, and the queue.
unfoldable pub squash : IssueQueue → List ℕ → ℕ × IssueQueue
unfolding squash_from
squash q rob_indices =
    let (removed, count, es) = squash_from q.entries rob_indices q.count in
    (removed, record { entries = es; count = count })
