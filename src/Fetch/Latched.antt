-- ===== src/Fetch/Latched.antt =====
-- What the fetch/decode register shows to the decode stage, clock cycle by clock cycle.
use cpu_cpp.Base.{
  ℕ, ◌%◌, ◌^◌, ◌≡◌, refl, ap, ◌∙◌, Bool, true, false, not, ◌||◌, List, [], ◌∷◌, ◌++◌, if◌then◌else◌,
  All,
}
use cpu_cpp.Fetch.ProgramCounter.{LogicParts, LogicLaws}
use cpu_cpp.Fetch.Unit.{FetchBundle}
use cpu_cpp.Fetch.DecodeReg.{Inputs, FetchDecodeReg, bus_of, wire_of, latch, evaluate, get_bundle}

abbrev pub blank_bundle : FetchBundle
blank_bundle = record {
  pc0 = 0;
  instruction0 = 0;
  valid0 = false;
  pc1 = 0;
  instruction1 = 0;
  valid1 = false;
}

-- The casts to `uint32_t` on the way through.
abbrev pub narrowed : FetchBundle → FetchBundle
narrowed b = record b {
  pc0 = b.pc0 % 2 ^ 32;
  instruction0 = b.instruction0 % 2 ^ 32;
  pc1 = b.pc1 % 2 ^ 32;
  instruction1 = b.instruction1 % 2 ^ 32;
}

-- What a cycle that does not hold brings to the decode stage.
abbrev pub arriving : Inputs → FetchBundle
arriving x = if x.reset || x.flush then blank_bundle else narrowed x.fetch

-- A cycle that keeps what the register shows.
abbrev pub is_held : Inputs → Bool
is_held x = not (x.reset || x.flush || x.enable)

module _ (address_width : ℕ) (parts : LogicParts) (laws : LogicLaws address_width parts) where
  abbrev pub clock_cycle : Inputs → FetchDecodeReg parts.Register → FetchDecodeReg parts.Register
  clock_cycle x r = evaluate parts true x (evaluate parts false x r)

  abbrev pub run : List Inputs → FetchDecodeReg parts.Register → FetchDecodeReg parts.Register
  run [] r = r
  run (x ∷ xs) r = run xs (clock_cycle x r)

  abbrev chosen : Bool → Bool → Bool → ℕ → ℕ → ℕ
  chosen reset flush enable input old =
      if reset then 0 else (if flush then 0 else (if enable then input else old))

  chosen_muxes :
      (reset flush enable : Bool) (input old : ℕ)
      → parts.mux (parts.mux (parts.mux old input enable) 0 flush) 0 reset
        ≡ chosen reset flush enable input old
  chosen_muxes true flush enable input old = laws.mux_high _ 0
  chosen_muxes false true enable input old = laws.mux_low _ 0 ∙ laws.mux_high _ 0
  chosen_muxes false false true input old =
      laws.mux_low _ 0 ∙ laws.mux_low _ 0 ∙ laws.mux_high old input
  chosen_muxes false false false input old =
      laws.mux_low _ 0 ∙ laws.mux_low _ 0 ∙ laws.mux_low old input

  latched :
      (x x' : Inputs) (input input' : ℕ) (r : parts.Register)
      → parts.register_output (latch parts true x' input' (latch parts false x input r))
        ≡ chosen x.reset x.flush x.enable input (parts.register_output r)
  unfolding latch
  latched x x' input input' r =
      laws.high_shows _ _
      ∙ laws.low_loads _ _
      ∙ chosen_muxes x.reset x.flush x.enable input (parts.register_output r)

  -- The bundle of six buses.
  abbrev of_buses : ℕ → ℕ → ℕ → ℕ → ℕ → ℕ → FetchBundle
  of_buses a b c d e f = record {
    pc0 = a % 2 ^ 32;
    instruction0 = b % 2 ^ 32;
    valid0 = wire_of c;
    pc1 = d % 2 ^ 32;
    instruction1 = e % 2 ^ 32;
    valid1 = wire_of f;
  }

  wire-bus : (b : Bool) → wire_of (bus_of b) ≡ b
  wire-bus true = refl
  wire-bus false = refl

  all_chosen :
      (reset flush enable : Bool) (n : FetchBundle) (a b c d e f : ℕ)
      → of_buses
          (chosen reset flush enable n.pc0 a)
          (chosen reset flush enable n.instruction0 b)
          (chosen reset flush enable (bus_of n.valid0) c)
          (chosen reset flush enable n.pc1 d)
          (chosen reset flush enable n.instruction1 e)
          (chosen reset flush enable (bus_of n.valid1) f)
        ≡ (if not (reset || flush || enable)
            then of_buses a b c d e f
            else (if reset || flush then blank_bundle else narrowed n))
  all_chosen true flush enable n a b c d e f = refl
  all_chosen false true enable n a b c d e f = refl
  all_chosen false false true n a b c d e f =
      λ i. record (narrowed n) { valid0 = wire-bus n.valid0 i; valid1 = wire-bus n.valid1 i }
  all_chosen false false false n a b c d e f = refl

  -- The levels while the clock is LOW decide.
  pub cycle_shows :
      (x x' : Inputs) (r : FetchDecodeReg parts.Register)
      → get_bundle parts (evaluate parts true x' (evaluate parts false x r))
        ≡ (if is_held x then get_bundle parts r else arriving x)
  unfolding evaluate get_bundle
  cycle_shows x x' r =
      (λ i.
        of_buses (latched x x' x.fetch.pc0 x'.fetch.pc0 r.pc0 i)
          (latched x x' x.fetch.instruction0 x'.fetch.instruction0 r.instruction0 i)
          (latched x x' (bus_of x.fetch.valid0) (bus_of x'.fetch.valid0) r.valid0 i)
          (latched x x' x.fetch.pc1 x'.fetch.pc1 r.pc1 i)
          (latched x x' x.fetch.instruction1 x'.fetch.instruction1 r.instruction1 i)
          (latched x x' (bus_of x.fetch.valid1) (bus_of x'.fetch.valid1) r.valid1 i))
      ∙ all_chosen x.reset x.flush x.enable x.fetch (parts.register_output r.pc0)
          (parts.register_output r.instruction0) (parts.register_output r.valid0)
          (parts.register_output r.pc1) (parts.register_output r.instruction1)
          (parts.register_output r.valid1)

  run_held :
      (xs : List Inputs) (r : FetchDecodeReg parts.Register)
      → All (λ x. is_held x ≡ true) xs
      → get_bundle parts (run xs r) ≡ get_bundle parts r
  run_held [] r h = refl
  run_held (x ∷ xs) r h =
      run_held xs (clock_cycle x r) h.1
      ∙ cycle_shows x x r
      ∙ ap (λ held. if held then get_bundle parts r else arriving x) h.0

  -- Whatever came before, the decode stage sees what the last cycle brought that did not hold the
  -- register: bubbles without an address after a reset or a flush, whatever the enable was, and else
  -- the fetched pair, its numbers cut to 32 bits, for as long as the register is held. The parts keep
  -- their laws.
  pub register_shows :
      (before after : List Inputs) (x : Inputs) (r : FetchDecodeReg parts.Register)
      → is_held x ≡ false
      → All (λ y. is_held y ≡ true) after
      → get_bundle parts (run (before ++ x ∷ after) r) ≡ arriving x
  register_shows [] after x r h k =
      run_held after (clock_cycle x r) k
      ∙ cycle_shows x x r
      ∙ ap (λ held. if held then get_bundle parts r else arriving x) h
  register_shows (y ∷ before) after x r h k = register_shows before after x (clock_cycle y r) h k
