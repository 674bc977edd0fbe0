-- ===== src/Fetch/Stream.antt =====
-- The addresses that the fetch unit presents, clock cycle by clock cycle.
use cpu_cpp.Base.{
  ℕ, ◌+◌, ◌*◌, ◌%◌, ◌^◌, ◌<◌, ◌≡◌, refl, sym, ap, ◌∙◌, Bool, true, false, not, ◌&&◌, ◌||◌, Option,
  none, some, List, [], ◌∷◌, ◌++◌, arith, if◌then◌else◌, All,
}
use native.Mathlib.Nat.{mod-add-mod, mod-lt, mod-eq_of_lt}
use cpu_cpp.Fetch.ProgramCounter
use cpu_cpp.Fetch.ProgramCounter.{LogicParts, LogicLaws}
use cpu_cpp.Fetch.Unit.{Ports, Inputs, FetchUnit, evaluate}

module _ (address_width : ℕ) (parts : LogicParts) (laws : LogicLaws address_width parts) where
  abbrev counted : Bool → Bool → ℕ → ℕ → ℕ
  counted reset enable next pc = if reset then 0 else (if enable then next else pc)

  counted_muxes :
      (reset enable : Bool) (next pc : ℕ)
      → parts.mux (parts.mux pc next enable) 0 reset ≡ counted reset enable next pc
  counted_muxes true enable next pc = laws.mux_high (parts.mux pc next enable) 0
  counted_muxes false true next pc = laws.mux_low (parts.mux pc next true) 0 ∙ laws.mux_high pc next
  counted_muxes false false next pc =
      laws.mux_low (parts.mux pc next false) 0 ∙ laws.mux_low pc next

  -- Two evaluations while the clock is LOW load the second input and show the old value.
  low_twice :
      (reset enable : Bool) (next next' : ℕ) (r : parts.Register)
      → laws.loaded (
          ProgramCounter.evaluate parts false reset enable next'
            (ProgramCounter.evaluate parts false reset enable next r))
        ≡ counted reset enable next' (parts.register_output r)
  unfolding ProgramCounter.evaluate
  low_twice reset enable next next' r =
      laws.low_loads _ _
      ∙ ap (λ pc. parts.mux (parts.mux pc next' enable) 0 reset) (laws.low_keeps _ _)
      ∙ counted_muxes reset enable next' (parts.register_output r)

  low_once :
      (reset enable : Bool) (next : ℕ) (r : parts.Register)
      → parts.register_output (ProgramCounter.evaluate parts false reset enable next r)
        ≡ parts.register_output r
  unfolding ProgramCounter.evaluate
  low_once reset enable next r = laws.low_keeps _ _

  high_once :
      (reset enable : Bool) (next : ℕ) (r : parts.Register)
      → parts.register_output (ProgramCounter.evaluate parts true reset enable next r)
        ≡ laws.loaded r
  unfolding ProgramCounter.evaluate
  high_once reset enable next r = laws.high_shows _ _

  high_twice :
      (reset enable : Bool) (next next' : ℕ) (r : parts.Register)
      → parts.register_output (
          ProgramCounter.evaluate parts true reset enable next'
            (ProgramCounter.evaluate parts true reset enable next r))
        ≡ laws.loaded r
  unfolding ProgramCounter.evaluate
  high_twice reset enable next next' r = laws.high_shows _ _ ∙ laws.high_keeps _ _

  module _ (ports : Ports) where
    -- A clock cycle: an evaluation with the clock LOW, and one with the clock HIGH.
    abbrev pub clock_cycle : Inputs → FetchUnit parts.Register → FetchUnit parts.Register
    clock_cycle x u = evaluate parts ports true x (evaluate parts ports false x u)

    abbrev pub run : List Inputs → FetchUnit parts.Register → FetchUnit parts.Register
    run [] u = u
    run (x ∷ xs) u = run xs (clock_cycle x u)

    abbrev pub is_stalled : Inputs → Bool
    is_stalled x = ports.stall_wired && x.stall

    -- Where a cycle sends the program counter whatever it was.
    abbrev pub restart : Inputs → Option ℕ
    restart x =
        if x.reset
        then some 0
        else (if not (is_stalled x) && (ports.redirect_wired && x.redirect)
            then some x.redirect_pc
            else none)

    abbrev pub pairs_counted : List Inputs → ℕ
    pairs_counted [] = 0
    pairs_counted (x ∷ xs) = (if is_stalled x then 0 else 1) + pairs_counted xs

    -- Without a stall wire, the enable of the constructor is still there.
    abbrev pub IsEnabled : FetchUnit parts.Register → Type 0
    IsEnabled u = (ports.stall_wired || u.pc_enable) ≡ true

    -- The unit's addresses: the pair at `a`, and the pair after it.
    pub record Presents (a : ℕ) (u : FetchUnit parts.Register) : Type 0 where
      pub pc_is : parts.register_output u.program_counter ≡ a
      pub pc0_is : u.pc0 ≡ a
      pub pc1_is : u.pc1 ≡ (a + ports.instruction_bytes) % 2 ^ address_width
      pub next_pc_is : u.next_pc ≡ (a + 2 * ports.instruction_bytes) % 2 ^ address_width

    abbrev next_of : Inputs → ℕ → ℕ
    next_of x pc =
        if ports.redirect_wired && x.redirect
        then x.redirect_pc
        else parts.adder pc (2 * ports.instruction_bytes)

    abbrev enable_of : Inputs → FetchUnit parts.Register → Bool
    enable_of x u = if ports.stall_wired then not x.stall else u.pc_enable

    abbrev arrived : Inputs → FetchUnit parts.Register → ℕ
    arrived x u =
        let pc = parts.register_output u.program_counter in
        counted x.reset (enable_of x u) (next_of x pc) pc

    low_phase :
        (x : Inputs) (u : FetchUnit parts.Register)
        → laws.loaded (evaluate parts ports false x u).program_counter ≡ arrived x u
    unfolding evaluate
    low_phase x u =
        low_twice x.reset (enable_of x u) u.pc_next _ u.program_counter
        ∙ ap
            (λ pc.
              counted x.reset (enable_of x u) (next_of x pc)
                (parts.register_output u.program_counter))
            (low_once x.reset (enable_of x u) u.pc_next u.program_counter)

    pub high_phase :
        (x : Inputs) (u : FetchUnit parts.Register)
        → let v = evaluate parts ports true x u in
          (parts.register_output v.program_counter ≡ laws.loaded u.program_counter)
          × (v.pc0 ≡ laws.loaded u.program_counter)
          × (v.pc1 ≡ parts.adder (laws.loaded u.program_counter) ports.instruction_bytes)
          × (v.next_pc ≡ parts.adder (laws.loaded u.program_counter) (2 * ports.instruction_bytes))
    unfolding evaluate
    high_phase x u =
        let shown = high_twice x.reset (enable_of x u) u.pc_next _ u.program_counter in
        let once = high_once x.reset (enable_of x u) u.pc_next u.program_counter in
        (
          shown,
          shown,
          ap (λ pc. parts.adder pc ports.instruction_bytes) once,
          ap (λ pc. parts.adder pc (2 * ports.instruction_bytes)) once,
        )

    pub low_shown :
        (x : Inputs) (u : FetchUnit parts.Register)
        → let v = evaluate parts ports false x u in
          let pc = parts.register_output u.program_counter in
          (v.pc0 ≡ pc) × (v.pc1 ≡ parts.adder pc ports.instruction_bytes)
    unfolding evaluate
    low_shown x u =
        let enable = enable_of x u in
        let once = low_once x.reset enable u.pc_next u.program_counter in
        (low_once x.reset enable _ _ ∙ once, ap (λ pc. parts.adder pc ports.instruction_bytes) once)

    pub high_loaded :
        (x : Inputs) (u : FetchUnit parts.Register)
        → laws.loaded (evaluate parts ports true x u).program_counter
          ≡ laws.loaded u.program_counter
    unfolding evaluate ProgramCounter.evaluate
    high_loaded x u = laws.high_keeps _ _ ∙ laws.high_keeps _ _

    still_enabled :
        (wired stall enable : Bool)
        → (wired || enable) ≡ true
        → (wired || (if wired then not stall else (if wired then not stall else enable))) ≡ true
    still_enabled wired stall enable h = ground arith

    cycle-IsEnabled :
        (x : Inputs) (u : FetchUnit parts.Register) → IsEnabled u → IsEnabled (clock_cycle x u)
    unfolding evaluate
    cycle-IsEnabled x u h = still_enabled ports.stall_wired x.stall u.pc_enable h

    -- The two cases of a cycle, with the levels as they stand in `arrived`.
    arrived_restart :
        (reset wired stall enable redirect : Bool) (target next pc t : ℕ)
        → (wired || enable) ≡ true
        → (if reset
            then some 0
            else (if not (wired && stall) && redirect then some target else none))
          ≡ some t
        → counted reset (if wired then not stall else enable) (if redirect then target else next) pc
          ≡ t
    arrived_restart reset wired stall enable redirect target next pc t h k = ground arith

    arrived_next :
        (reset wired stall enable redirect : Bool) (target next pc : ℕ)
        → (wired || enable) ≡ true
        → (if reset
            then some 0
            else (if not (wired && stall) && redirect then some target else none))
          ≡ none
        → counted reset (if wired then not stall else enable) (if redirect then target else next) pc
          ≡ (if wired && stall then pc else next)
    arrived_next reset wired stall enable redirect target next pc h k = ground arith

    module _ (bytes_small : 2 * ports.instruction_bytes < 2 ^ address_width) where
      -- A cycle that arrives at `a` presents it.
      cycle-Presents :
          (x : Inputs) (u : FetchUnit parts.Register) (a : ℕ)
          → a < 2 ^ address_width
          → arrived x u ≡ a
          → Presents a (clock_cycle x u)
      cycle-Presents x u a h k =
          let (shown, pc0_shown, pc1_shown, next_shown) =
            high_phase x (evaluate parts ports false x u) in
          let at : laws.loaded (evaluate parts ports false x u).program_counter ≡ a =
            low_phase x u ∙ k in
          record {
            pc_is = shown ∙ at;
            pc0_is = pc0_shown ∙ at;
            pc1_is =
                pc1_shown
                ∙ ap (λ pc. parts.adder pc ports.instruction_bytes) at
                ∙ laws.adder_is a ports.instruction_bytes h (omega arith);
            next_pc_is =
                next_shown
                ∙ ap (λ pc. parts.adder pc (2 * ports.instruction_bytes)) at
                ∙ laws.adder_is a (2 * ports.instruction_bytes) h bytes_small;
          }

      -- The address after some pairs.
      abbrev pub pairs_after : ℕ → ℕ → ℕ
      pairs_after a n = (a + 2 * ports.instruction_bytes * n) % 2 ^ address_width

      stays_or_goes :
          (a : ℕ) (stalled : Bool)
          → a < 2 ^ address_width
          → (if stalled then a else (a + 2 * ports.instruction_bytes) % 2 ^ address_width)
            ≡ pairs_after a (if stalled then 0 else 1)
      stays_or_goes a true h = sym (ap (λ v. v % 2 ^ address_width) (grind arith) ∙ mod-eq_of_lt h)
      stays_or_goes a false h = ap (λ v. v % 2 ^ address_width) (grind arith)

      pairs_added : (a m n : ℕ) → pairs_after (pairs_after a m) n ≡ pairs_after a (m + n)
      pairs_added a m n =
          mod-add-mod (a + 2 * ports.instruction_bytes * m) (2 ^ address_width)
            (2 * ports.instruction_bytes * n)
          ∙ ap (λ v. v % 2 ^ address_width) (grind arith)

      pub cycle_goes_on :
          (x : Inputs) (u : FetchUnit parts.Register) (a : ℕ)
          → a < 2 ^ address_width
          → IsEnabled u
          → Presents a u
          → restart x ≡ none
          → Presents (pairs_after a (if is_stalled x then 0 else 1)) (clock_cycle x u)
      cycle_goes_on x u a h e p k =
          let next =
            parts.adder (parts.register_output u.program_counter) (2 * ports.instruction_bytes) in
          let arrives =
            arrived_next x.reset ports.stall_wired x.stall u.pc_enable
              (ports.redirect_wired && x.redirect) x.redirect_pc next
              (parts.register_output u.program_counter) e k
            ∙ ap (λ pc. if is_stalled x then pc else parts.adder pc (2 * ports.instruction_bytes))
                p.pc_is
            ∙ ap (λ v. if is_stalled x then a else v)
                (laws.adder_is a (2 * ports.instruction_bytes) h bytes_small)
            ∙ stays_or_goes a (is_stalled x) h in
          cycle-Presents x u _ (mod-lt _ (omega arith)) arrives

      run_goes_on :
          (xs : List Inputs) (u : FetchUnit parts.Register) (a : ℕ)
          → a < 2 ^ address_width
          → IsEnabled u
          → Presents a u
          → All (λ x. restart x ≡ none) xs
          → Presents (pairs_after a (pairs_counted xs)) (run xs u)
      run_goes_on [] u a h e p k = rw (sym (stays_or_goes a true h)) p
      run_goes_on (x ∷ xs) u a h e p k =
          let first = cycle_goes_on x u a h e p k.0 in
          rw (sym (pairs_added a (if is_stalled x then 0 else 1) (pairs_counted xs))) (
            run_goes_on xs (clock_cycle x u) _ (mod-lt _ (omega arith)) (cycle-IsEnabled x u e)
              first k.1)

      run_append :
          (xs ys : List Inputs) (u : FetchUnit parts.Register)
          → run (xs ++ ys) u ≡ run ys (run xs u)
      run_append [] ys u = refl
      run_append (x ∷ xs) ys u = run_append xs ys (clock_cycle x u)

      run-IsEnabled :
          (xs : List Inputs) (u : FetchUnit parts.Register) → IsEnabled u → IsEnabled (run xs u)
      run-IsEnabled [] u e = e
      run-IsEnabled (x ∷ xs) u e = run-IsEnabled xs (clock_cycle x u) (cycle-IsEnabled x u e)

      pub restarts-Presents :
          (x : Inputs) (u : FetchUnit parts.Register) (a : ℕ)
          → IsEnabled u
          → restart x ≡ some a
          → a < 2 ^ address_width
          → Presents a (clock_cycle x u)
      restarts-Presents x u a e k h =
          let pc : ℕ = parts.register_output u.program_counter in
          cycle-Presents x u a h (
            arrived_restart x.reset ports.stall_wired x.stall u.pc_enable
              (ports.redirect_wired && x.redirect) x.redirect_pc
              (parts.adder pc (2 * ports.instruction_bytes)) pc a e k)

      -- Whatever came before, once a reset or a redirect that no stall holds back sends the unit to
      -- an address of its width, and neither happens again, the unit presents the pair at that
      -- address plus two instructions for each cycle without a stall since, modulo the address space,
      -- for instructions so small that a pair fits the address space, and parts that keep their laws.
      pub restart-Presents :
          (before after : List Inputs) (x : Inputs) (u : FetchUnit parts.Register) (a : ℕ)
          → IsEnabled u
          → restart x ≡ some a
          → a < 2 ^ address_width
          → All (λ y. restart y ≡ none) after
          → Presents (pairs_after a (pairs_counted after)) (run (before ++ x ∷ after) u)
      restart-Presents before after x u a e k h none_after =
          let v = run before u in
          let e' = run-IsEnabled before u e in
          rw (run_append before (x ∷ after) u) (
            run_goes_on after (clock_cycle x v) a h (cycle-IsEnabled x v e')
              (restarts-Presents x v a e' k h) none_after)
