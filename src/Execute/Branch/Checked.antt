-- ===== src/Execute/Branch/Checked.antt =====
-- The next pc of a branch, and what the check of its prediction guarantees.
use cpu_cpp.Base.{
  ℕ, ◌+◌, ◌-◌, ◌%◌, ◌^◌, ◌<◌, ◌≡◌, refl, ap, ◌∙◌, ◌⊎◌, inl, inr, Bool, true, false, not, arith,
  ◌==◌, if◌then◌else◌, Bool-cases,
}
use mathlib.Core.Path.{ap₂}
use cpu_cpp.Isa.{Opcode}
use cpu_cpp.Branch.Recovery.{BranchResult}
use cpu_cpp.Execute.Branch.{BranchHardware, BranchInput, resolve, check_prediction, evaluate}

-- The documented behaviour of the `logic` parts on 32-bit operands.
pub record BranchLaws (hardware : BranchHardware) : Type 0 where
  pub adder_sum_is : (a b : ℕ) → a < 2 ^ 32 → b < 2 ^ 32 → hardware.adder_sum a b ≡ (a + b) % 2 ^ 32
  pub sub_zero_is :
      (a b : ℕ) → a < 2 ^ 32 → b < 2 ^ 32 → hardware.sub_zero a b ≡ ((a + 2 ^ 32 - b) % 2 ^ 32 == 0)

-- The expected outcome: beq and bne compare their registers, j always jumps, and every target is
-- relative to the pc, that of j too.
abbrev isa_taken : Opcode → ℕ → ℕ → Bool
isa_taken Opcode.beq a b = a == b
isa_taken Opcode.bne a b = not (a == b)
isa_taken Opcode.j a b = true
isa_taken _ a b = false

abbrev pub isa_next : BranchInput → ℕ
isa_next x =
    if isa_taken x.opcode x.operand_a x.operand_b
    then (x.pc + x.immediate) % 2 ^ 32
    else (x.pc + 4) % 2 ^ 32

-- Where the front end went on, by its prediction with a target.
abbrev pub predicted_next : BranchInput → ℕ
predicted_next x = if x.predicted_taken then x.predicted_target else (x.pc + 4) % 2 ^ 32

pub record IsWord (x : BranchInput) : Type 0 where
  pub pc_small : x.pc < 2 ^ 32
  pub a_small : x.operand_a < 2 ^ 32
  pub b_small : x.operand_b < 2 ^ 32
  pub immediate_small : x.immediate < 2 ^ 32

-- A taken branch that was predicted taken with target 0 counts as well predicted, whatever its target.
pub record Unchecked (x : BranchInput) (r : BranchResult) : Type 0 where
  pub predicted : x.predicted_taken ≡ true
  pub no_target : x.predicted_target ≡ 0
  pub was_taken : r.taken ≡ true
  pub passed : r.mispredicted ≡ false

-- A result has the expected next pc, and unless it is unchecked the fetch goes on there: the redirect
-- names it on a misprediction, and otherwise the front end is there already.
pub record Resolved (x : BranchInput) (r : BranchResult) : Type 0 where
  pub taken : r.taken ≡ isa_taken x.opcode x.operand_a x.operand_b
  pub next : r.next_pc ≡ isa_next x
  pub continues :
      Unchecked x r ⊎ ((if r.mispredicted then r.redirect_pc else predicted_next x) ≡ isa_next x)

-- The check, for the outcome `t` with target `target` and the fall-through address `f`.
abbrev Continues : Bool → ℕ → Bool → ℕ → ℕ → Type 0
Continues pt ptarget t target f =
    let missed = check_prediction pt ptarget t target in
    let next = if t then target else f in
    let predicted = if pt then ptarget else f in
    (if missed then (if missed then next else 0) else predicted) ≡ next

check-Continues :
    (pt : Bool) (ptarget : ℕ) (t : Bool) (target f : ℕ)
    → ((pt ≡ true) × (ptarget ≡ 0) × (t ≡ true) × (check_prediction pt ptarget t target ≡ false))
      ⊎ Continues pt ptarget t target f
unfolding check_prediction
check-Continues true ptarget true target f = elim (Bool-cases (ptarget == 0)) [
  | inl z ↦ inl (refl, ground (arith, z), refl, ground (arith, z))
  | inr z ↦ inr (ground (arith, z))
]
check-Continues true ptarget false target f = inr (ground arith)
check-Continues false ptarget true target f = inr (ground arith)
check-Continues false ptarget false target f = inr (ground arith)

resolve_lem :
    (opcode : Opcode) (a b : ℕ) (z : Bool) → z ≡ (a == b) → resolve opcode z ≡ isa_taken opcode a b
resolve_lem Opcode.beq a b z h = h
resolve_lem Opcode.bne a b z h = ap not h
resolve_lem Opcode.nop a b z h = refl
resolve_lem Opcode.add a b z h = refl
resolve_lem Opcode.sub a b z h = refl
resolve_lem Opcode.and a b z h = refl
resolve_lem Opcode.or a b z h = refl
resolve_lem Opcode.xor a b z h = refl
resolve_lem Opcode.not a b z h = refl
resolve_lem Opcode.li a b z h = refl
resolve_lem Opcode.addi a b z h = refl
resolve_lem Opcode.lw a b z h = refl
resolve_lem Opcode.sw a b z h = refl
resolve_lem Opcode.j a b z h = refl
resolve_lem Opcode.halt a b z h = refl
resolve_lem (Opcode.unnamed n) a b z h = refl

zero_iff : (a b : ℕ) → a < 2 ^ 32 → b < 2 ^ 32 → ((a + 2 ^ 32 - b) % 2 ^ 32 == 0) ≡ (a == b)
zero_iff a b p q = ground arith

module _ (hardware : BranchHardware) (laws : BranchLaws hardware) where
  -- For 32-bit operands: the unit takes beq where the operands agree, bne where they differ, j always
  -- and nothing else; its next pc is pc + immediate where it is taken, for j too, and else pc + 4; and
  -- the fetch continues there, whether the prediction stands or the redirect replaces it, unless a
  -- taken branch was predicted taken with target 0: the unit passes that one whatever its target is.
  pub branch_resolves : (x : BranchInput) → IsWord x → Resolved x (evaluate hardware x)
  unfolding evaluate check_prediction
  branch_resolves x w =
      let taken =
        resolve_lem x.opcode x.operand_a x.operand_b (hardware.sub_zero x.operand_a x.operand_b) (
          laws.sub_zero_is x.operand_a x.operand_b w.a_small w.b_small
          ∙ zero_iff x.operand_a x.operand_b w.a_small w.b_small) in
      let target = laws.adder_sum_is x.pc x.immediate w.pc_small w.immediate_small in
      let t = resolve x.opcode (hardware.sub_zero x.operand_a x.operand_b) in
      let next = ap₂ (λ b s. if b then s else (x.pc + 4) % 2 ^ 32) taken target in
      let c =
        check-Continues x.predicted_taken x.predicted_target t (hardware.adder_sum x.pc x.immediate)
          ((x.pc + 4) % 2 ^ 32) in
      record {
        taken = taken;
        next = next;
        continues = elim c [
          | inl (p, z, y, q) ↦
              inl (record { predicted = p; no_target = z; was_taken = y; passed = q })
          | inr k ↦ inr (k ∙ next)
        ];
      }
