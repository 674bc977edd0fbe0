-- ===== src/Cpu/Stuck.antt =====
-- Instructions that superscalar/datapath/SuperScalarCPU.hpp dispatches and never executes.
use cpu_cpp.Base.{
  ℕ, ◌≡◌, refl, sym, ap, ◌∙◌, inl, inr, Bool, true, false, not, ◌&&◌, none, List, [], ◌∷◌, ◌++◌,
  arith, ◌==◌, if_keeps,
}
use mathlib.Core.Bool.{false≢true}
use cpu_cpp.Isa.{Opcode, is_branch}
use cpu_cpp.Rename.AliasTable.{AliasTable}
use cpu_cpp.Rename.Bundle.{RenameBundle, blank_decode}
use cpu_cpp.Rename.RegisterFile.{RegisterFile}
use cpu_cpp.Rename.Renamer.{translate}
use cpu_cpp.Issue.Queue.{Entry, wake, wake1}
use cpu_cpp.Rob.Entry.{Entry as RobEntry}
use cpu_cpp.Rob.Contents.{contents}
use cpu_cpp.Issue.Dispatch.{Dispatcher, make_issue_entry, dispatch, one_if}
use cpu_cpp.Issue.Accepted.{IsValid, Room, dispatch_takes}
use cpu_cpp.Issue.Holds.{Holds, Stored}
use cpu_cpp.Issue.Entered.{Entered, dispatch-Enters}
use mathlib.Core.Path.{subst, ap₂}
use cpu_cpp.Decode.Instruction
use cpu_cpp.Decode.Instruction.{BusLogic}
use cpu_cpp.Decode.Decoder
use cpu_cpp.Decode.Decoder.{format_of}
use cpu_cpp.Decode.Unit
use cpu_cpp.Execute.Alu.{is_ready_alu, is_none, is_no_flow}
use cpu_cpp.Execute.Memory.{ready_for_memory_execution}
use cpu_cpp.Cpu.Backend.{is_ready_branch}

-- J, and the numbers that name no opcode.
abbrev pub unserved : Opcode → Bool
unserved Opcode.j = true
unserved (Opcode.unnamed n) = true
unserved _ = false

-- An entry after wakeups of registers with values.
abbrev pub woken : List (ℕ × ℕ) → Entry → Entry
woken [] e = e
woken ((r, v) ∷ ws) e = woken ws (wake r v e)

-- The entry is there, and no execution stage selects it.
pub record Ignored (e : Entry) : Type 0 where
  pub present : e.valid ≡ true
  pub by_alu : is_ready_alu e ≡ false
  pub by_branch : is_ready_branch e ≡ false
  pub by_memory : ready_for_memory_execution e ≡ false

-- What the selections look at beside the ready flags.
record Idle (e : Entry) : Type 0 where
  there : e.valid ≡ true
  loads : e.memory_read ≡ false
  stores : e.memory_write ≡ false
  no_branch : is_branch e.control_flow ≡ false
  no_operation : (is_no_flow e.control_flow && not (is_none e.alu_operation)) ≡ false

Idle-Ignored : (e : Entry) → Idle e → Ignored e
Idle-Ignored e i =
    let l = i.loads in
    let s = i.stores in
    let b = i.no_branch in
    let o = i.no_operation in
    record {
      present = i.there;
      by_alu = ground (arith, o);
      by_branch = ground (arith, b);
      by_memory = ground (arith, l, s);
    }

wake-Idle : (r v : ℕ) (e : Entry) → Idle e → Idle (wake r v e)
wake-Idle r v e i =
    let e1 = wake1 r v e in
    let i1 : Idle e1 =
      if_keeps Idle (not e.rs1_ready && e.physical_rs1 == r)
        (record {
          there = i.there;
          loads = i.loads;
          stores = i.stores;
          no_branch = i.no_branch;
          no_operation = i.no_operation;
        })
        i in
    if_keeps Idle (not e.valid) i (
      if_keeps Idle (not e1.rs2_ready && e1.physical_rs2 == r)
        (record {
          there = i1.there;
          loads = i1.loads;
          stores = i1.stores;
          no_branch = i1.no_branch;
          no_operation = i1.no_operation;
        })
        i1)

woken-Idle : (ws : List (ℕ × ℕ)) (e : Entry) → Idle e → Idle (woken ws e)
woken-Idle [] e i = i
woken-Idle ((r, v) ∷ ws) e i = woken-Idle ws (wake r v e) (wake-Idle r v e i)

module _ (bus : BusLogic) (prf : RegisterFile) (rat : AliasTable) (rob_index pc raw : ℕ) where
  -- The entry of a word whose opcode is `opcode`.
  abbrev entry_with : Opcode → Entry
  entry_with opcode =
      make_issue_entry prf
        (translate rat (
          Unit.fill
            (Decoder.fields_of bus (format_of opcode) raw (record {
              opcode = opcode;
              format = format_of opcode;
              rd = 0;
              rs1 = 0;
              rs2 = 0;
              immediate = 0;
            }))
            (record blank_decode { valid = true; pc = pc; instruction = raw })))
        rob_index

  entry-Idle : (opcode : Opcode) → unserved opcode ≡ true → Idle (entry_with opcode)
  unfolding make_issue_entry translate Unit.fill Unit.decode_control Decoder.fields_of
  entry-Idle Opcode.j h = record {
    there = refl;
    loads = refl;
    stores = refl;
    no_branch = refl;
    no_operation = refl;
  }
  entry-Idle (Opcode.unnamed n) h = record {
    there = refl;
    loads = refl;
    stores = refl;
    no_branch = refl;
    no_operation = refl;
  }
  entry-Idle Opcode.nop h = absurd (false≢true h)
  entry-Idle Opcode.add h = absurd (false≢true h)
  entry-Idle Opcode.sub h = absurd (false≢true h)
  entry-Idle Opcode.and h = absurd (false≢true h)
  entry-Idle Opcode.or h = absurd (false≢true h)
  entry-Idle Opcode.xor h = absurd (false≢true h)
  entry-Idle Opcode.not h = absurd (false≢true h)
  entry-Idle Opcode.li h = absurd (false≢true h)
  entry-Idle Opcode.addi h = absurd (false≢true h)
  entry-Idle Opcode.lw h = absurd (false≢true h)
  entry-Idle Opcode.sw h = absurd (false≢true h)
  entry-Idle Opcode.beq h = absurd (false≢true h)
  entry-Idle Opcode.bne h = absurd (false≢true h)
  entry-Idle Opcode.halt h = absurd (false≢true h)

  -- What rename hands to dispatch for the word, fetched at `pc`.
  abbrev pub bundle_of : RenameBundle
  bundle_of = translate rat (Unit.decode bus pc raw true)

  word-Idle :
      unserved (Instruction.opcode bus raw) ≡ true → Idle (make_issue_entry prf bundle_of rob_index)
  unfolding Unit.decode Decoder.decode
  word-Idle h = entry-Idle (Instruction.opcode bus raw) h

-- Whatever holds the instruction's fields is idle where the code's own entry is.
Holds-Idle :
    (prf : RegisterFile) (input : RenameBundle) (index : ℕ) (e : Entry)
    → Holds prf input index e
    → Idle (make_issue_entry prf input index)
    → Idle e
unfolding make_issue_entry
Holds-Idle prf input index e h i = record {
  there = h.is_valid;
  loads = h.same_load ∙ i.loads;
  stores = h.same_store ∙ i.stores;
  no_branch = ap is_branch h.same_flow ∙ i.no_branch;
  no_operation =
      ap₂ (λ f o. is_no_flow f && not (is_none o)) h.same_flow h.same_operation ∙ i.no_operation;
}

valid_bundle :
    (prf : RegisterFile) (input : RenameBundle) (index : ℕ)
    → Idle (make_issue_entry prf input index)
    → input.valid ≡ true
unfolding make_issue_entry
valid_bundle prf input index i = i.there

-- The instruction is in both structures, uncompleted, and its entry is ignored after any wakeups.
pub record Stranded (cap : ℕ) (d d' : Dispatcher) : Type 0 where
  pub entry : Entry
  pub stored : Stored d.issue_queue.entries entry d'.issue_queue.entries
  pub ignored : (ws : List (ℕ × ℕ)) → Ignored (woken ws entry)
  pub recorded : RobEntry
  pub youngest : contents cap d'.rob ≡ contents cap d.rob ++ (recorded ∷ [])
  pub same_place : entry.rob_index ≡ recorded.rob_index
  pub uncompleted : recorded.completed ≡ false

module _ (bus : BusLogic) (rat : AliasTable) (cap pc raw : ℕ) where
  stranded :
      (d : Dispatcher) (input : RenameBundle) (d' : Dispatcher)
      → Idle (make_issue_entry d.prf input d.rob.tail)
      → Entered cap input d d'
      → Stranded cap d d'
  stranded d input d' i t =
      let idle = Holds-Idle d.prf input d.rob.tail t.entry t.holds i in
      record {
        entry = t.entry;
        stored = t.stored;
        ignored = λ ws. Idle-Ignored (woken ws t.entry) (woken-Idle ws t.entry idle);
        recorded = t.recorded_entry;
        youngest = t.youngest;
        same_place = t.holds.at ∙ sym t.recorded.at;
        uncompleted = t.recorded.uncompleted;
      }

  -- A valid word with opcode J, or with a number that names no opcode, decoded and renamed through
  -- any table, is taken by a valid dispatcher with room for it: it is the youngest in the reorder
  -- buffer, uncompleted, and stands in the issue queue, where its entry is valid and passes the test
  -- of none of the integer, branch and memory execution, after any wakeups.
  pub unserved-Ignored :
      (d : Dispatcher)
      → unserved (Instruction.opcode bus raw) ≡ true
      → IsValid cap d
      → Room cap 1 d
      → let r = dispatch cap d (bundle_of bus d.prf rat d.rob.tail pc raw) none in
        (r.0 ≡ true) × Stranded cap d r.1
  unserved-Ignored d h v room =
      let input = bundle_of bus d.prf rat d.rob.tail pc raw in
      let i = word-Idle bus d.prf rat d.rob.tail pc raw h in
      let due = valid_bundle d.prf input d.rob.tail i in
      let room' : Room cap (one_if input.valid) d =
        subst (λ b. Room cap (one_if b) d) (sym due) room in
      (
        (dispatch_takes cap d input none v room').0.accepted,
        elim (dispatch-Enters cap d input v room') [
          | inl (a, t) ↦ stranded d input _ i t
          | inr (a, t) ↦ absurd (false≢true (sym a ∙ due))
        ],
      )
