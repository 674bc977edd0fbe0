-- ===== src/Cpu/FetchFollows.antt =====
-- What the decode stage sees of the fetch, cycle by cycle, after a redirect.
use cpu_cpp.Base.{
  ℕ, zero, suc, ◌+◌, ◌*◌, ◌%◌, ◌^◌, ◌<◌, ◌≡◌, refl, sym, ap, ◌∙◌, Bool, true, false, not, ◌||◌,
  arith, if◌then◌else◌,
}
use native.Mathlib.Nat.{mod-lt}
use cpu_cpp.Fetch.ProgramCounter.{LogicParts, LogicLaws}
use cpu_cpp.Fetch.Unit
use cpu_cpp.Fetch.Unit.{FetchUnit, FetchBundle}
use cpu_cpp.Fetch.DecodeReg
use cpu_cpp.Fetch.DecodeReg.{get_bundle}
use cpu_cpp.Fetch.InstructionMemory
use cpu_cpp.Fetch.InstructionMemory.{Widths, convert_address}
use cpu_cpp.Fetch.Stream.{
  low_shown, Presents, clock_cycle, high_loaded, high_phase, cycle_goes_on, restarts-Presents,
}
use cpu_cpp.Fetch.Latched.{blank_bundle, narrowed, arriving, cycle_shows}
use cpu_cpp.Cpu.State.{Redirect, no_redirect}
use cpu_cpp.Cpu.FetchStage.{
  FetchSide, cpu_ports, fetch_stage, eval_clock_edge, evaluate_unit, evaluate_register,
}

module _ (parts : LogicParts) (laws : LogicLaws 32 parts) (widths : Widths)
    (rom : Bool → ℕ → ℕ) where
  -- The clock is HIGH, and the fetch unit presents the pair at `a`.
  pub record Fetching (a : ℕ) (s : FetchSide parts.Register) : Type 0 where
    pub clock_high : s.clock ≡ true
    pub enabled : s.fetch_unit.pc_enable ≡ true
    pub loaded_is : laws.loaded s.fetch_unit.program_counter ≡ a
    pub presents : Presents 32 parts laws cpu_ports a s.fetch_unit

  -- The pair at `a` with its instructions.
  abbrev pub pair_at : ℕ → FetchBundle
  pair_at a = narrowed (record {
    pc0 = a;
    instruction0 = rom true (convert_address widths a);
    valid0 = true;
    pc1 = (a + 4) % 2 ^ 32;
    instruction1 = rom true (convert_address widths ((a + 4) % 2 ^ 32));
    valid1 = true;
  })

  -- The inputs of the fetch unit once the memory has answered.
  abbrev answered_inputs : Redirect → ℕ → ℕ → Unit.Inputs
  answered_inputs r a b = record {
    reset = false;
    stall = false;
    redirect = r.active;
    redirect_pc = r.redirect_pc;
    hit0 = true;
    hit1 = true;
    instruction0 = rom true (convert_address widths a);
    instruction1 = rom true (convert_address widths b);
  }

  abbrev settled : Redirect → FetchSide parts.Register → FetchUnit parts.Register
  settled r s =
      Unit.evaluate parts cpu_ports s.clock (answered_inputs r s.fetch_unit.pc0 s.fetch_unit.pc1)
        s.fetch_unit

  stage_unit :
      (r : Redirect) (s : FetchSide parts.Register)
      → (fetch_stage parts widths rom r s).fetch_unit
        ≡ clock_cycle 32 parts laws cpu_ports
            (answered_inputs r s.fetch_unit.pc0 s.fetch_unit.pc1)
            (settled r s)
  unfolding fetch_stage eval_clock_edge evaluate_unit evaluate_register InstructionMemory.evaluate
  stage_unit r s = refl

  stage_clock :
      (r : Redirect) (s : FetchSide parts.Register)
      → (fetch_stage parts widths rom r s).clock ≡ true
  unfolding fetch_stage eval_clock_edge evaluate_unit evaluate_register
  stage_clock r s = refl

  or_true : (b : Bool) → (b || true) ≡ true
  or_true true = refl
  or_true false = refl

  -- What the register is given while the clock is LOW.
  abbrev offered : Redirect → FetchSide parts.Register → DecodeReg.Inputs
  offered r s =
      let x = answered_inputs r s.fetch_unit.pc0 s.fetch_unit.pc1 in
      let u = Unit.evaluate parts cpu_ports false x (settled r s) in
      record {
        reset = false;
        enable = true;
        flush = r.active;
        fetch = record {
          pc0 = u.pc0;
          instruction0 = x.instruction0;
          valid0 = true;
          pc1 = u.pc1;
          instruction1 = x.instruction1;
          valid1 = true;
        };
      }

  stage_bundle :
      (r : Redirect) (s : FetchSide parts.Register)
      → get_bundle parts (fetch_stage parts widths rom r s).fd_reg ≡ arriving (offered r s)
  unfolding fetch_stage eval_clock_edge evaluate_unit evaluate_register InstructionMemory.evaluate
      Unit.evaluate
  stage_bundle r s =
      cycle_shows 32 parts laws (offered r s) _ s.fd_reg
      ∙ ap (λ taken. if not taken then get_bundle parts s.fd_reg else arriving (offered r s))
          (or_true r.active)

  stage_enabled :
      (r : Redirect) (s : FetchSide parts.Register)
      → (fetch_stage parts widths rom r s).fetch_unit.pc_enable ≡ s.fetch_unit.pc_enable
  unfolding fetch_stage eval_clock_edge evaluate_unit evaluate_register Unit.evaluate
  stage_enabled r s = refl

  settled_enabled :
      (r : Redirect) (s : FetchSide parts.Register)
      → (settled r s).pc_enable ≡ s.fetch_unit.pc_enable
  unfolding Unit.evaluate
  settled_enabled r s = refl

  adds : (a : ℕ) (n : ℕ) → a < 2 ^ 32 → n < 2 ^ 32 → parts.adder a n ≡ (a + n) % 2 ^ 32
  adds a n h k = laws.adder_is a n h k

  -- While the clock is HIGH the memory's answer changes no address.
  settled-Presents :
      (r : Redirect) (s : FetchSide parts.Register) (a : ℕ)
      → a < 2 ^ 32
      → Fetching a s
      → Presents 32 parts laws cpu_ports a (settled r s)
  settled-Presents r s a h f =
      let x = answered_inputs r s.fetch_unit.pc0 s.fetch_unit.pc1 in
      let (pc, pc0, pc1, next) = high_phase 32 parts laws cpu_ports x s.fetch_unit in
      rw f.clock_high (record {
        pc_is = pc ∙ f.loaded_is;
        pc0_is = pc0 ∙ f.loaded_is;
        pc1_is = pc1 ∙ ap (λ v. parts.adder v 4) f.loaded_is ∙ adds a 4 h (omega arith);
        next_pc_is = next ∙ ap (λ v. parts.adder v 8) f.loaded_is ∙ adds a 8 h (omega arith);
      })

  cycle_loaded :
      (x : Unit.Inputs) (u : FetchUnit parts.Register) (a : ℕ)
      → Presents 32 parts laws cpu_ports a (clock_cycle 32 parts laws cpu_ports x u)
      → laws.loaded (clock_cycle 32 parts laws cpu_ports x u).program_counter ≡ a
  cycle_loaded x u a p =
      let low = Unit.evaluate parts cpu_ports false x u in
      high_loaded 32 parts laws cpu_ports x low
      ∙ sym (high_phase 32 parts laws cpu_ports x low).0
      ∙ p.pc_is

  -- The stage leads from one address to another where the unit's cycle does.
  stage-Fetching :
      (r : Redirect) (s : FetchSide parts.Register) (a b : ℕ)
      → Fetching a s
      → Presents 32 parts laws cpu_ports b (
          clock_cycle 32 parts laws cpu_ports
            (answered_inputs r s.fetch_unit.pc0 s.fetch_unit.pc1)
            (settled r s))
      → Fetching b (fetch_stage parts widths rom r s)
  stage-Fetching r s a b f p = record {
    clock_high = stage_clock r s;
    enabled = stage_enabled r s ∙ f.enabled;
    loaded_is =
        ap (λ (u : FetchUnit parts.Register). laws.loaded u.program_counter) (stage_unit r s)
        ∙ cycle_loaded _ _ b p;
    presents = rw (stage_unit r s) p;
  }

  -- A cycle without a redirect, and one with it.
  goes_on :
      (s : FetchSide parts.Register) (a : ℕ)
      → a < 2 ^ 32
      → Fetching a s
      → Fetching ((a + 8) % 2 ^ 32) (fetch_stage parts widths rom no_redirect s)
  goes_on s a h f = stage-Fetching no_redirect s a _ f (
      cycle_goes_on 32 parts laws cpu_ports (omega arith) _ (settled no_redirect s) a h
        (settled_enabled no_redirect s ∙ f.enabled) (settled-Presents no_redirect s a h f) refl)

  redirected :
      (s : FetchSide parts.Register) (a t : ℕ)
      → t < 2 ^ 32
      → Fetching a s
      → Fetching t (fetch_stage parts widths rom (record { active = true; redirect_pc = t }) s)
  redirected s a t h f =
      let r : Redirect = record { active = true; redirect_pc = t } in
      stage-Fetching r s a t f (
        restarts-Presents 32 parts laws cpu_ports (omega arith) _ (settled r s) t
          (settled_enabled r s ∙ f.enabled) refl h)

  -- Without a redirect the decode stage gets the pair that the unit presented.
  pair_shown :
      (s : FetchSide parts.Register) (a : ℕ)
      → a < 2 ^ 32
      → Fetching a s
      → get_bundle parts (fetch_stage parts widths rom no_redirect s).fd_reg ≡ pair_at a
  pair_shown s a h f =
      let x = answered_inputs no_redirect s.fetch_unit.pc0 s.fetch_unit.pc1 in
      let shown = low_shown 32 parts laws cpu_ports x (settled no_redirect s) in
      let there = (settled-Presents no_redirect s a h f).pc_is in
      let pc0 = shown.0 ∙ there in
      let pc1 = shown.1 ∙ ap (λ v. parts.adder v 4) there ∙ adds a 4 h (omega arith) in
      stage_bundle no_redirect s ∙ (λ i. narrowed (record {
        pc0 = pc0 i;
        instruction0 = rom true (convert_address widths (f.presents.pc0_is i));
        valid0 = true;
        pc1 = pc1 i;
        instruction1 = rom true (convert_address widths (f.presents.pc1_is i));
        valid1 = true;
      }))

  -- Some cycles without a redirect.
  abbrev pub stages : ℕ → FetchSide parts.Register → FetchSide parts.Register
  stages zero s = s
  stages (suc n) s = fetch_stage parts widths rom no_redirect (stages n s)

  stages-Fetching :
      (n t : ℕ) (s : FetchSide parts.Register)
      → t < 2 ^ 32
      → Fetching t s
      → Fetching ((t + 8 * n) % 2 ^ 32) (stages n s)
  stages-Fetching zero t s h f = let same : (t + 8 * 0) % 2 ^ 32 ≡ t = omega arith in rw same f
  stages-Fetching (suc n) t s h f =
      let one_more : (t + 8 * suc n) % 2 ^ 32 ≡ ((t + 8 * n) % 2 ^ 32 + 8) % 2 ^ 32 = omega arith in
      rw one_more (goes_on (stages n s) _ (mod-lt _ (omega arith)) (stages-Fetching n t s h f))

  -- From any cycle whose clock is HIGH with a unit that presents some pair, a redirect to a 32-bit
  -- address gives the decode stage a pair of bubbles, and each cycle without a redirect after it the
  -- next pair with its instructions, from that address on and modulo 2^32. The parts of the library
  -- keep their laws.
  pub fetch_stage_follows :
      (s : FetchSide parts.Register) (a t n : ℕ)
      → t < 2 ^ 32
      → Fetching a s
      → let s' = fetch_stage parts widths rom (record { active = true; redirect_pc = t }) s in
        (get_bundle parts s'.fd_reg ≡ blank_bundle)
        × (get_bundle parts (stages (suc n) s').fd_reg ≡ pair_at ((t + 8 * n) % 2 ^ 32))
  fetch_stage_follows s a t n h f =
      let r : Redirect = record { active = true; redirect_pc = t } in
      let s' = fetch_stage parts widths rom r s in
      (
        stage_bundle r s,
        pair_shown (stages n s') _ (mod-lt _ (omega arith))
            (stages-Fetching n t s' h (redirected s a t h f)),
      )
