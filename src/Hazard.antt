-- ===== src/Hazard.antt =====
-- pipelined_cpu/core/HazardUnit.hpp, and the forwarding multiplexers of pipelined_cpu/multiplexers,
-- whose `Mux3` is the `logic` library's and so an argument.
use cpu_cpp.Base.{
  ℕ, ◌/◌, ◌%◌, ◌≡◌, refl, ap, ◌∙◌, Bool, true, false, not, ◌&&◌, ◌||◌, ◌==◌, if◌then◌else◌,
}

-- The inputs of `evaluate`: the values of the buses, and the wires that are HIGH.
pub record Inputs : Type 0 where
  pub ra1_d : ℕ
  pub ra2_d : ℕ
  pub ra1_e : ℕ
  pub ra2_e : ℕ
  pub wa3_e : ℕ
  pub mem_to_reg_e : Bool
  pub branch_taken_e : Bool
  pub wa3_m : ℕ
  pub reg_write_m : Bool
  pub wa3_w : ℕ
  pub reg_write_w : Bool

pub record Outputs : Type 0 where
  pub forward_ae : ℕ
  pub forward_be : ℕ
  pub stall_f : Bool
  pub stall_d : Bool
  pub flush_d : Bool
  pub flush_e : Bool

-- The forwarding logic of one operand, whose register is `ra_e`.
unfoldable pub forward : Inputs → ℕ → ℕ
forward x ra_e =
    if x.reg_write_m && x.wa3_m == ra_e
    then 0b10
    else (if x.reg_write_w && x.wa3_w == ra_e then 0b01 else 0b00)

-- The stall and flush outputs, from the taken branch and the load-use hazard.
abbrev control_outputs : Bool → Bool → ℕ → ℕ → Outputs
control_outputs branch_taken ldr_stall forward_a forward_b =
    let base : Outputs = record {
      forward_ae = forward_a;
      forward_be = forward_b;
      stall_f = false;
      stall_d = false;
      flush_d = false;
      flush_e = false;
    } in
    if branch_taken
    then record base { flush_d = true; flush_e = true }
    else (if ldr_stall
        then record base { stall_f = true; stall_d = true; flush_e = true }
        else base)

unfoldable pub evaluate : Inputs → Outputs
unfolding forward
evaluate x =
    let ldr_stall = x.mem_to_reg_e && (x.wa3_e == x.ra1_d || x.wa3_e == x.ra2_d) in
    control_outputs x.branch_taken_e ldr_stall (forward x x.ra1_e) (forward x x.ra2_e)

-- `logic::Mux3`: the output for the two select wires, low and high, and the three inputs.
abbrev pub Mux3 : Type 0
Mux3 = Bool → Bool → ℕ → ℕ → ℕ → ℕ

pub record Mux3Laws (mux : Mux3) : Type 0 where
  pub first : (a b c : ℕ) → mux false false a b c ≡ a
  pub second : (a b c : ℕ) → mux true false a b c ≡ b
  pub third : (a b c : ℕ) → mux false true a b c ≡ c

-- `ForwardAE_mux` and `ForwardBE_mux`, with a two-bit select.
unfoldable pub forward_mux : Mux3 → ℕ → ℕ → ℕ → ℕ → ℕ
forward_mux mux select rd result_w alu_out_m =
    mux (select % 2 == 1) (select / 2 == 1) rd result_w alu_out_m

-- The registers after an instruction in flight has written back.
abbrev pub written : Bool → ℕ → ℕ → (ℕ → ℕ) → ℕ → ℕ
written reg_write wa3 v registers r = if reg_write && wa3 == r then v else registers r

-- The registers as the instruction in EX must see them: the one in WB is older than that in MEM.
abbrev pub in_order : Inputs → ℕ → ℕ → (ℕ → ℕ) → ℕ → ℕ
in_order x result_w alu_out_m registers =
    written x.reg_write_m x.wa3_m alu_out_m (written x.reg_write_w x.wa3_w result_w registers)

abbrev pub load_use : Inputs → Bool
load_use x = x.mem_to_reg_e && (x.wa3_e == x.ra1_d || x.wa3_e == x.ra2_d)

pub record Resolved (mux : Mux3) (x : Inputs) (y : Outputs) (registers : ℕ → ℕ)
    (result_w alu_out_m : ℕ) : Type 0 where
  pub operand_a :
      forward_mux mux y.forward_ae (registers x.ra1_e) result_w alu_out_m
      ≡ in_order x result_w alu_out_m registers x.ra1_e
  pub operand_b :
      forward_mux mux y.forward_be (registers x.ra2_e) result_w alu_out_m
      ≡ in_order x result_w alu_out_m registers x.ra2_e
  pub stalled : y.stall_d ≡ not x.branch_taken_e && load_use x
  pub held : y.stall_f ≡ y.stall_d
  pub squashed : y.flush_d ≡ x.branch_taken_e
  pub bubble : y.flush_e ≡ x.branch_taken_e || load_use x

module _ (mux : Mux3) (laws : Mux3Laws mux) where
  select_lem :
      (m w : Bool) (rd result_w alu_out_m : ℕ)
      → forward_mux mux (if m then 0b10 else (if w then 0b01 else 0b00)) rd result_w alu_out_m
        ≡ (if m then alu_out_m else (if w then result_w else rd))
  unfolding forward_mux
  select_lem true w rd result_w alu_out_m = laws.third rd result_w alu_out_m
  select_lem false true rd result_w alu_out_m = laws.second rd result_w alu_out_m
  select_lem false false rd result_w alu_out_m = laws.first rd result_w alu_out_m

  forward_lem :
      (x : Inputs) (registers : ℕ → ℕ) (result_w alu_out_m ra_e : ℕ)
      → forward_mux mux (forward x ra_e) (registers ra_e) result_w alu_out_m
        ≡ in_order x result_w alu_out_m registers ra_e
  unfolding forward
  forward_lem x registers result_w alu_out_m ra_e =
      select_lem (x.reg_write_m && x.wa3_m == ra_e) (x.reg_write_w && x.wa3_w == ra_e)
        (registers ra_e) result_w alu_out_m

  controlled :
      (b l : Bool) (fa fb : ℕ)
      → let y = control_outputs b l fa fb in
        (y.forward_ae ≡ fa)
        × (y.forward_be ≡ fb)
        × (y.stall_d ≡ not b && l)
        × (y.stall_f ≡ y.stall_d)
        × (y.flush_d ≡ b)
        × (y.flush_e ≡ b || l)
  controlled true l fa fb = (refl, refl, refl, refl, refl, refl)
  controlled false true fa fb = (refl, refl, refl, refl, refl, refl)
  controlled false false fa fb = (refl, refl, refl, refl, refl, refl)

  -- For all stage contents: with a Mux3 that selects by its two wires, each forwarding multiplexer
  -- gives EX the register as it is after the older instructions in WB and MEM have written, in
  -- that order; fetch and decode stall exactly on a load-use hazard without a taken branch; decode is flushed
  -- exactly on a taken branch, and EX on either.
  pub hazards_resolve :
      (x : Inputs) (registers : ℕ → ℕ) (result_w alu_out_m : ℕ)
      → Resolved mux x (evaluate x) registers result_w alu_out_m
  unfolding evaluate
  hazards_resolve x registers result_w alu_out_m =
      let (a, b, stall_d, stall_f, flush_d, flush_e) =
        controlled x.branch_taken_e (load_use x) (forward x x.ra1_e) (forward x x.ra2_e) in
      let operand : ℕ → ℕ → ℕ = λ s ra. forward_mux mux s (registers ra) result_w alu_out_m in
      record {
        operand_a =
            ap (λ s. operand s x.ra1_e) a ∙ forward_lem x registers result_w alu_out_m x.ra1_e;
        operand_b =
            ap (λ s. operand s x.ra2_e) b ∙ forward_lem x registers result_w alu_out_m x.ra2_e;
        stalled = stall_d;
        held = stall_f;
        squashed = flush_d;
        bubble = flush_e;
      }
