-- ===== src/Rob/Sweep.antt =====
-- The two loops of `squash_younger_than` in superscalar/core/dispatch/ReOrderBuffer.hpp: the search
-- for the branch and the clearing of the entries behind it.
use cpu_cpp.Base.{
  ℕ, zero, suc, ◌+◌, ◌≤◌, ◌<◌, ◌≡◌, refl, sym, ap, ◌∙◌, Bool, true, false, List, ◌∷◌, map, arith,
  if◌then◌else◌, length, get_or, set, length-set, get_or-set_self, All,
}
use native.Mathlib.Nat.{suc-add, zero-add}
use mathlib.Core.Path.{ap₂, subst}
use cpu_cpp.Ring.{
  next, place, next_cases, next-lt, next-place, place-lt, place-next, place-zero, window,
  window-set_out, distance-place,
}
use cpu_cpp.Rob.Entry.{Entry, blank}
use cpu_cpp.Rob.Buffer.{sweep}
use cpu_cpp.Rob.Contents.{IsClear, Placed}

abbrev pub place_of : Entry → ℕ
place_of e = e.rob_index

-- What the clearing loop leaves of the array.
abbrev pub swept : ℕ → ℕ → ℕ → List Entry → List Entry
swept cap n cur es = (sweep cap n cur es).2

third_of_if :
    {A B C : Type 0} (b : Bool) (x x' : A) (y y' : B) (z : C)
    → (if◌then◌else◌ {A = A × B × C} b (x, y, z) (x', y', z)).2 ≡ z
third_of_if true x x' y y' z = refl
third_of_if false x x' y y' z = refl

module _ (cap : ℕ) where
  swept-suc :
      (n cur : ℕ) (es : List Entry)
      → swept cap (suc n) cur es ≡ swept cap n (next cap cur) (set es cur blank)
  unfolding sweep
  swept-suc n cur es = third_of_if (get_or es cur blank).valid _ _ _ _ _

  swept_zero : (cur : ℕ) (es : List Entry) → swept cap 0 cur es ≡ es
  unfolding sweep
  swept_zero cur es = refl

  pub length-swept : (n cur : ℕ) (es : List Entry) → length (swept cap n cur es) ≡ length es
  length-swept zero cur es = ap length (swept_zero cur es)
  length-swept (suc n) cur es =
      ap length (swept-suc n cur es)
      ∙ length-swept n (next cap cur) (set es cur blank)
      ∙ length-set es cur blank

  -- The loop collects the entries that it walks over, and their places, in order.
  pub sweep_collects :
      (n cur : ℕ) (es : List Entry)
      → cur < cap
      → n ≤ cap
      → Placed cap cur (window cap es blank cur n)
      → ((sweep cap n cur es).0 ≡ window cap es blank cur n)
        × ((sweep cap n cur es).1 ≡ map place_of (window cap es blank cur n))
  unfolding sweep
  sweep_collects zero cur es p q w = (refl, refl)
  sweep_collects (suc n) cur es p q w =
      let same : window cap (set es cur blank) blank (next cap cur) n
          ≡ window cap es blank (next cap cur) n =
        window-set_out cap es blank (next cap cur) n cur blank (next-lt cap cur p) p
          (ground (arith, next_cases cap cur p)) in
      let (a, b) =
        sweep_collects n (next cap cur) (set es cur blank) (next-lt cap cur p) (omega arith)
          (rw same w.2) in
      rw w.0 (
        ap (λ l. get_or es cur blank ∷ l) (a ∙ same),
        ap₂ ◌∷◌ (sym w.1) (b ∙ ap (map place_of) same),
      )

  -- Entries before the swept ones stay.
  pub swept_before :
      (n k h m : ℕ) (es : List Entry)
      → h < cap
      → m ≤ k
      → k + n ≤ cap
      → window cap (swept cap n (place cap h k) es) blank h m ≡ window cap es blank h m
  swept_before zero k h m es p q r =
      ap (λ l. window cap l blank h m) (swept_zero (place cap h k) es)
  swept_before (suc n) k h m es p q r =
      let at : next cap (place cap h k) ≡ place cap h (suc k) =
        next-place cap h k p (omega arith) in
      ap (λ l. window cap l blank h m) (swept-suc n (place cap h k) es)
      ∙ rw at (
          swept_before n (suc k) h m (set es (place cap h k) blank) p (omega arith) (omega arith)
          ∙ window-set_out cap es blank h m (place cap h k) blank p
              (place-lt cap h k p (omega arith))
              (omega (arith, distance-place cap h k p (omega arith))))

  -- The place just before the walk stays as it is.
  swept_first :
      (n cur : ℕ) (es : List Entry)
      → cur < cap
      → suc n ≤ cap
      → get_or (swept cap n (next cap cur) es) cur blank ≡ get_or es cur blank
  swept_first n cur es p q =
      let at : next cap cur ≡ place cap cur 1 =
        ap (next cap) (sym (place-zero cap cur p)) ∙ next-place cap cur 0 p (omega arith) in
      rw at (ap (λ l. get_or l 0 blank) (swept_before n 1 cur 1 es p (omega arith) (omega arith)))

  -- The swept places are clear, and so stay those behind them.
  pub swept_clear :
      (n cur r : ℕ) (es : List Entry)
      → length es ≡ cap
      → cur < cap
      → n + r ≤ cap
      → All IsClear (window cap es blank (place cap cur n) r)
      → All IsClear (window cap (swept cap n cur es) blank cur (n + r))
  swept_clear zero cur r es s p q w =
      rw (swept_zero cur es, zero-add)
        (subst (λ k. All IsClear (window cap es blank k r)) (place-zero cap cur p) w)
  swept_clear (suc n) cur r es s p q w =
      let start : place cap (next cap cur) n ≡ place cap cur (suc n) =
        place-next cap cur n p (omega arith) in
      let behind =
        window-set_out cap es blank (place cap cur (suc n)) r cur blank
          (place-lt cap cur (suc n) p (omega arith)) p (ground arith) in
      subst (λ l. All IsClear (window cap l blank cur (suc n + r))) (sym (swept-suc n cur es))
        (subst
          (λ k.
            All IsClear (window cap (swept cap n (next cap cur) (set es cur blank)) blank cur k))
          (sym (suc-add n r))
          (
            ap (λ (e : Entry). e.valid)
                (swept_first n cur (set es cur blank) p (omega arith)
                  ∙ get_or-set_self es cur blank blank (omega arith)),
            swept_clear n (next cap cur) r (set es cur blank) (length-set es cur blank ∙ s)
                (next-lt cap cur p) (omega arith) (rw (start, behind) w),
          ))
