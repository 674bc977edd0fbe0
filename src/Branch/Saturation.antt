-- ===== src/Branch/Saturation.antt =====
-- How the counters of superscalar/core/branch/BranchPredictor.hpp learn.
use cpu_cpp.Base.{
  ℕ, zero, suc, ◌≤◌, ◌<◌, ◌≡◌, refl, sym, ap, ◌∙◌, Bool, true, false, List, [], ◌∷◌, arith, leb,
  ==_refl, length, get_or, set, length-set, get_or-set_self, All,
}
use mathlib.Core.Path.{subst}
use cpu_cpp.Branch.Predictor.{BranchPredictor, blank_entry, hash, predict, step_counter, update}

module _ (n : ℕ) where
  -- Tables of the right size with two-bit counters.
  pub record IsValid (p : BranchPredictor) : Type 0 where
    pub size_pos : 0 < n
    pub sized : length p.counters ≡ n
    pub btb_sized : length p.btb ≡ n
    pub two_bits : All (λ c. c ≤ 3) p.counters

  counter-le : (cs : List ℕ) (i : ℕ) → All (λ c. c ≤ 3) cs → get_or cs i 0 ≤ 3
  counter-le [] i a = omega arith
  counter-le (c ∷ cs) zero a = a.0
  counter-le (c ∷ cs) (suc i) a = counter-le cs i a.1

  set-All : (cs : List ℕ) (i c : ℕ) → c ≤ 3 → All (λ c. c ≤ 3) cs → All (λ c. c ≤ 3) (set cs i c)
  set-All [] i c h a = tt
  set-All (x ∷ cs) zero c h a = (h, a.1)
  set-All (x ∷ cs) (suc i) c h a = (a.0, set-All cs i c h a.1)

  step-le : (t : Bool) (c : ℕ) → c ≤ 3 → step_counter n t c ≤ 3
  unfolding step_counter
  step-le true c h = ground arith
  step-le false c h = ground arith

  hash-lt : (pc : ℕ) → 0 < n → hash n pc < n
  hash-lt pc h = omega arith

  -- An update of valid tables keeps their sizes and the counters within two bits.
  pub update-IsValid :
      (p : BranchPredictor) (pc : ℕ) (t : Bool) (target : ℕ)
      → IsValid p
      → IsValid (update n p pc t target)
  unfolding update
  update-IsValid p pc true target v = record {
    size_pos = v.size_pos;
    sized = length-set p.counters _ _ ∙ v.sized;
    btb_sized = length-set p.btb _ _ ∙ v.btb_sized;
    two_bits =
        set-All p.counters (hash n pc) _
          (step-le true _ (counter-le p.counters (hash n pc) v.two_bits)) v.two_bits;
  }
  update-IsValid p pc false target v = record {
    size_pos = v.size_pos;
    sized = length-set p.counters _ _ ∙ v.sized;
    btb_sized = v.btb_sized;
    two_bits =
        set-All p.counters (hash n pc) _
          (step-le false _ (counter-le p.counters (hash n pc) v.two_bits)) v.two_bits;
  }

  updated_counter :
      (p : BranchPredictor) (pc : ℕ) (t : Bool) (target : ℕ)
      → IsValid p
      → get_or (update n p pc t target).counters (hash n pc) 0
        ≡ step_counter n t (get_or p.counters (hash n pc) 0)
  unfolding update
  updated_counter p pc t target v =
      get_or-set_self p.counters (hash n pc) _ 0
        (subst (λ l. hash n pc < l) (sym v.sized) (hash-lt pc v.size_pos))

  step_twice : (t : Bool) (c : ℕ) → c ≤ 3 → leb 2 (step_counter n t (step_counter n t c)) ≡ t
  unfolding step_counter
  step_twice true c h = ground arith
  step_twice false c h = ground arith

  step_once : (t : Bool) (c : ℕ) → leb 2 c ≡ t → leb 2 (step_counter n t c) ≡ t
  unfolding step_counter
  step_once true c h = ground arith
  step_once false c h = ground arith

  predict-taken :
      (p : BranchPredictor) (pc : ℕ)
      → (predict n p pc).taken ≡ leb 2 (get_or p.counters (hash n pc) 0)
  unfolding predict
  predict-taken p pc = refl

  -- From valid tables, two equal outcomes of a branch in a row are what is predicted next,
  -- whatever the tables held before.
  pub predict_learns :
      (p : BranchPredictor) (pc : ℕ) (t : Bool) (target target' : ℕ)
      → IsValid p
      → (predict n (update n (update n p pc t target) pc t target') pc).taken ≡ t
  predict_learns p pc t target target' v =
      let q = update n p pc t target in
      let c = get_or p.counters (hash n pc) 0 in
      predict-taken (update n q pc t target') pc
      ∙ ap (leb 2) (
          updated_counter q pc t target' (update-IsValid p pc t target v)
          ∙ ap (step_counter n t) (updated_counter p pc t target v))
      ∙ step_twice t c (counter-le p.counters (hash n pc) v.two_bits)

  -- From valid tables, an outcome that agrees with the prediction keeps it.
  predict_keeps :
      (p : BranchPredictor) (pc target : ℕ)
      → IsValid p
      → (predict n (update n p pc (predict n p pc).taken target) pc).taken ≡ (predict n p pc).taken
  predict_keeps p pc target v =
      let t = (predict n p pc).taken in
      predict-taken (update n p pc t target) pc
      ∙ ap (leb 2) (updated_counter p pc t target v)
      ∙ step_once t (get_or p.counters (hash n pc) 0) (sym (predict-taken p pc))

  -- From valid tables, after a taken branch its address hits with its target.
  pub predict_target :
      (p : BranchPredictor) (pc target : ℕ)
      → IsValid p
      → ((predict n (update n p pc true target) pc).btb_hit ≡ true)
        × ((predict n (update n p pc true target) pc).target ≡ target)
  unfolding predict update
  predict_target p pc target v =
      let e =
        get_or-set_self p.btb (hash n pc) (record { valid = true; tag = pc; target = target })
          blank_entry (subst (λ l. hash n pc < l) (sym v.btb_sized) (hash-lt pc v.size_pos)) in
      rw e (rw (==_refl pc) (refl, refl))
