-- ===== src/Cpu/Termination.antt =====
-- The run loop of superscalar/datapath/SuperScalarCPU.hpp ends.
use cpu_cpp.Base.{
  ℕ, zero, suc, ◌+◌, ◌-◌, ◌≤◌, ◌<◌, ◌≡◌, refl, sym, ap, inl, inr, Bool, true, false, not, ◌&&◌,
  ◌||◌, arith, ltb, leb, if◌then◌else◌, Bool-cases,
}
use mathlib.Core.Path.{subst}
use cpu_cpp.Decode.Instruction.{BusLogic}
use cpu_cpp.Execute.Branch.{BranchHardware}
use cpu_cpp.Cpu.State.{Sizes, Cpu, Fetched}
use cpu_cpp.Cpu.Step.{cycle_once, run}
use cpu_cpp.Cpu.Parts.{IsValid}
use cpu_cpp.Cpu.Reachable.{Reachable, step-IsValid, reachable-IsValid}

module _ (sizes : Sizes) (bus : BusLogic) (hardware : BranchHardware) where
  abbrev runs : Cpu → ℕ → Bool
  runs cpu max_cycles = not cpu.halted && ltb cpu.cycles max_cycles

  -- How a run ends: halted or at its limit, never past the limit, and well formed.
  pub record Finished (max_cycles : ℕ) (cpu cpu' : Cpu) : Type 0 where
    pub ended : (cpu'.halted || leb max_cycles cpu'.cycles) ≡ true
    pub within : cpu'.cycles ≤ cpu.cycles + (max_cycles - cpu.cycles)
    pub forward : cpu.cycles ≤ cpu'.cycles
    pub valid : IsValid sizes cpu'

  stopped :
      (max_cycles : ℕ) (cpu : Cpu)
      → runs cpu max_cycles ≡ false
      → IsValid sizes cpu
      → Finished max_cycles cpu cpu
  stopped max_cycles cpu h v = record {
    ended = ground arith;
    within = omega arith;
    forward = omega arith;
    valid = v;
  }

  later :
      (max_cycles : ℕ) (a b c : Cpu)
      → b.cycles ≡ a.cycles + 1
      → runs a max_cycles ≡ true
      → Finished max_cycles b c
      → Finished max_cycles a c
  later max_cycles a b c e h q =
      let below : a.cycles < max_cycles = ground arith in
      record {
        ended = q.ended;
        within = (let w = q.within in omega (arith, w, e, below));
        forward = (let w = q.forward in omega (arith, w, e));
        valid = q.valid;
      }

  run_stopped :
      (fuel : ℕ) (inputs : ℕ → Fetched) (max_cycles : ℕ) (cpu : Cpu)
      → runs cpu max_cycles ≡ false
      → run sizes bus hardware fuel inputs max_cycles cpu ≡ cpu
  unfolding run
  run_stopped zero inputs max_cycles cpu h = refl
  run_stopped (suc fuel) inputs max_cycles cpu h =
      let rest =
        run sizes bus hardware fuel inputs max_cycles
          (cycle_once sizes bus hardware (inputs cpu.cycles) cpu) in
      ap (λ b. if b then rest else cpu) h

  run_from :
      (fuel more : ℕ) (inputs : ℕ → Fetched) (max_cycles : ℕ) (cpu : Cpu)
      → max_cycles - cpu.cycles ≤ fuel
      → max_cycles - cpu.cycles ≤ more
      → IsValid sizes cpu
      → Finished max_cycles cpu (run sizes bus hardware fuel inputs max_cycles cpu)
        × (run sizes bus hardware more inputs max_cycles cpu
            ≡ run sizes bus hardware fuel inputs max_cycles cpu)
  unfolding run
  run_from zero more inputs max_cycles cpu h k v =
      let s : runs cpu max_cycles ≡ false = ground arith in
      (stopped max_cycles cpu s v, run_stopped more inputs max_cycles cpu s)
  run_from (suc fuel) zero inputs max_cycles cpu h k v =
      let s : runs cpu max_cycles ≡ false = ground arith in
      let same = sym (run_stopped (suc fuel) inputs max_cycles cpu s) in
      (subst (λ c. Finished max_cycles cpu c) same (stopped max_cycles cpu s v), same)
  run_from (suc fuel) (suc more) inputs max_cycles cpu h k v =
      let cpu' = cycle_once sizes bus hardware (inputs cpu.cycles) cpu in
      let (v', tick) = step-IsValid sizes bus hardware (inputs cpu.cycles) cpu v in
      let rest = run sizes bus hardware fuel inputs max_cycles cpu' in
      let rest_more = run sizes bus hardware more inputs max_cycles cpu' in
      let Ends : Bool → Type 0 = λ b.
        Finished max_cycles cpu (if b then rest else cpu)
        × ((if b then rest_more else cpu) ≡ (if b then rest else cpu)) in
      elim (Bool-cases (runs cpu max_cycles)) [
        | inl t ↦
            let ih =
              run_from fuel more inputs max_cycles cpu' (omega (arith, tick, h))
                (omega (arith, tick, k)) v' in
            subst Ends (sym t) (later max_cycles cpu cpu' rest tick t ih.0, ih.1)
        | inr s ↦ subst Ends (sym s) (stopped max_cycles cpu s v, refl)
      ]

  -- From a reachable state (of a core with room in its reorder buffer and predictor), whatever is
  -- fetched in each cycle, `run` ends for each fuel of at least the cycles left to the limit: the
  -- core has halted or its counter has reached the limit, the counter has not passed the limit (nor
  -- moved back), the state is well formed, and more fuel gives the same state.
  pub run_finishes :
      (fuel more : ℕ) (inputs : ℕ → Fetched) (max_cycles : ℕ) (cpu : Cpu)
      → 0 < sizes.rob_capacity
      → 0 < sizes.table_size
      → Reachable sizes bus hardware cpu
      → max_cycles - cpu.cycles ≤ fuel
      → max_cycles - cpu.cycles ≤ more
      → Finished max_cycles cpu (run sizes bus hardware fuel inputs max_cycles cpu)
        × (run sizes bus hardware more inputs max_cycles cpu
            ≡ run sizes bus hardware fuel inputs max_cycles cpu)
  run_finishes fuel more inputs max_cycles cpu p q r h k =
      run_from fuel more inputs max_cycles cpu h k (reachable-IsValid sizes bus hardware cpu p q r)
