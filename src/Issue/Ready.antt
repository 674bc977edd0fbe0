-- ===== src/Issue/Ready.antt =====
-- The selection of superscalar/core/issue/IssueQueue.hpp: which entry is ready, and what a request
-- carries.
use cpu_cpp.Base.{
  ℕ, zero, suc, ◌+◌, ◌<◌, ◌≡◌, refl, sym, ap, ◌∙◌, inl, inr, true, false, none, some, List, [], ◌∷◌,
  arith, if◌then◌else◌, Bool-cases, length, get_or, set,
}
use mathlib.Core.Option.{none-ne-some, some-injective}
use mathlib.Core.Path.{subst}
use cpu_cpp.Issue.Queue
use cpu_cpp.Issue.Queue.{Entry, IssueQueue, is_ready, select_from, select_ready, mark_issued}
use cpu_cpp.Issue.Unit.{ExecutionRequest, request_of}

-- The entry waits for nothing: it is there, not issued yet, and has both sources.
pub record IsReady (e : Entry) : Type 0 where
  pub present : e.valid ≡ true
  pub waiting : e.issued ≡ false
  pub first_there : e.rs1_ready ≡ true
  pub second_there : e.rs2_ready ≡ true

-- The request has what the entry has.
pub record Carries (e : Entry) (x : ExecutionRequest) : Type 0 where
  pub is_valid : x.valid ≡ true
  pub same_pc : x.pc ≡ e.pc
  pub same_instruction : x.instruction ≡ e.instruction
  pub same_opcode : x.opcode ≡ e.opcode
  pub same_physical_rs1 : x.physical_rs1 ≡ e.physical_rs1
  pub same_physical_rs2 : x.physical_rs2 ≡ e.physical_rs2
  pub same_physical_rd : x.physical_rd ≡ e.physical_rd
  pub same_rs1_value : x.rs1_value ≡ e.rs1_value
  pub same_rs2_value : x.rs2_value ≡ e.rs2_value
  pub same_immediate : x.immediate ≡ e.immediate
  pub same_alu_operation : x.alu_operation ≡ e.alu_operation
  pub same_operand_a : x.operand_a ≡ e.operand_a
  pub same_operand_b : x.operand_b ≡ e.operand_b
  pub same_memory_read : x.memory_read ≡ e.memory_read
  pub same_memory_write : x.memory_write ≡ e.memory_write
  pub same_control_flow : x.control_flow ≡ e.control_flow
  pub same_rob_index : x.rob_index ≡ e.rob_index
  pub same_halt : x.halt ≡ e.halt
  pub same_predicted_taken : x.predicted_taken ≡ e.predicted_taken
  pub same_predicted_target : x.predicted_target ≡ e.predicted_target

-- Requests taken one by one out of an array of slots, each from the first slot that is ready, which
-- is blank afterwards; the last index is the array that is left.
pub data Taken : List Entry → List ExecutionRequest → List Entry → Type 0 where
  stop : (es : List Entry) → Taken es [] es
  take :
      (es es' : List Entry) (x : ExecutionRequest) (xs : List ExecutionRequest) (i : ℕ)
      → i < length es
      → IsReady (get_or es i Queue.blank)
      → ((j : ℕ) → j < i → IsReady (get_or es j Queue.blank) → ⊥)
      → Carries (get_or es i Queue.blank) x
      → Taken (set es i Queue.blank) xs es'
      → Taken es (x ∷ xs) es'

pub request_of-Carries : (e : Entry) → Carries e (request_of e)
unfolding request_of
request_of-Carries e = record {
  is_valid = refl;
  same_pc = refl;
  same_instruction = refl;
  same_opcode = refl;
  same_physical_rs1 = refl;
  same_physical_rs2 = refl;
  same_physical_rd = refl;
  same_rs1_value = refl;
  same_rs2_value = refl;
  same_immediate = refl;
  same_alu_operation = refl;
  same_operand_a = refl;
  same_operand_b = refl;
  same_memory_read = refl;
  same_memory_write = refl;
  same_control_flow = refl;
  same_rob_index = refl;
  same_halt = refl;
  same_predicted_taken = refl;
  same_predicted_target = refl;
}

pub is_ready-IsReady : (e : Entry) → is_ready e ≡ true → IsReady e
is_ready-IsReady e h = record {
  present = ground (arith, h);
  waiting = ground (arith, h);
  first_there = ground (arith, h);
  second_there = ground (arith, h);
}

unready : (e : Entry) → is_ready e ≡ false → IsReady e → ⊥
unready e h r =
    let a = r.present in
    let b = r.waiting in
    let c = r.first_there in let d = r.second_there in ground (arith, h, a, b, c, d)

select_from-IsReady :
    (es : List Entry) (k i : ℕ)
    → select_from k es ≡ some i
    → (j : ℕ) × (i ≡ k + j)
      × (j < length es)
      × (is_ready (get_or es j Queue.blank) ≡ true)
      × ((m : ℕ) → m < j → IsReady (get_or es m Queue.blank) → ⊥)
unfolding select_from
select_from-IsReady [] k i h = absurd (none-ne-some i h)
select_from-IsReady (e ∷ es) k i h = elim (Bool-cases (is_ready e)) [
  | inl a ↦ (
    0,
    sym (some-injective _ _ (sym (ap (λ b. if b then some k else select_from (k + 1) es) a) ∙ h))
        ∙ omega arith,
    omega arith,
    a,
    λ m l. absurd (omega (arith, l)),
  )
  | inr a ↦
      let (j, p, q, r, before) =
        select_from-IsReady es (k + 1) i
          (sym (ap (λ b. if b then some k else select_from (k + 1) es) a) ∙ h) in
      (suc j, omega (arith, p), omega (arith, q), r, none_before e es j (unready e a) before)
]
  where
    none_before :
        (e : Entry) (es : List Entry) (j : ℕ)
        → (IsReady e → ⊥)
        → ((m : ℕ) → m < j → IsReady (get_or es m Queue.blank) → ⊥)
        → (m : ℕ) → m < suc j
        → IsReady (get_or (e ∷ es) m Queue.blank)
        → ⊥
    none_before e es j a b zero l = a
    none_before e es j a b (suc m) l = b m (omega (arith, l))

select_from-none :
    (es : List Entry) (k : ℕ)
    → select_from k es ≡ none
    → (m : ℕ) → IsReady (get_or es m Queue.blank)
    → ⊥
unfolding select_from
select_from-none [] k h m = unready Queue.blank refl
select_from-none (e ∷ es) k h zero = elim (Bool-cases (is_ready e)) [
  | inl a ↦
      absurd (none-ne-some k (sym h ∙ ap (λ b. if b then some k else select_from (k + 1) es) a))
  | inr a ↦ unready e a
]
select_from-none (e ∷ es) k h (suc m) = elim (Bool-cases (is_ready e)) [
  | inl a ↦
      absurd (none-ne-some k (sym h ∙ ap (λ b. if b then some k else select_from (k + 1) es) a))
  | inr a ↦
      select_from-none es (k + 1)
        (sym (ap (λ b. if b then some k else select_from (k + 1) es) a) ∙ h) m
]

pub select_ready_slot :
    (q : IssueQueue) (i : ℕ)
    → select_ready q ≡ some i
    → (i < length q.entries)
      × (is_ready (get_or q.entries i Queue.blank) ≡ true)
      × ((m : ℕ) → m < i → IsReady (get_or q.entries m Queue.blank) → ⊥)
unfolding select_ready
select_ready_slot q i h =
    let (j, p, k, r, before) = select_from-IsReady q.entries 0 i h in
    let e : j ≡ i = omega (arith, p) in
    subst
      (λ z.
        (z < length q.entries)
        × (is_ready (get_or q.entries z Queue.blank) ≡ true)
        × ((m : ℕ) → m < z → IsReady (get_or q.entries m Queue.blank) → ⊥))
      e (k, r, before)

pub select_ready-none :
    (q : IssueQueue)
    → select_ready q ≡ none
    → (m : ℕ) → IsReady (get_or q.entries m Queue.blank)
    → ⊥
unfolding select_ready
select_ready-none q h = select_from-none q.entries 0 h
