-- ===== src/Rob/Commit.antt =====
-- `commit` of superscalar/core/dispatch/ReOrderBuffer.hpp beside the specification.
use cpu_cpp.Base.{
  ℕ, zero, suc, ◌-◌, ◌≤◌, ◌<◌, ◌≡◌, refl, sym, ap, ◌∙◌, inl, inr, not, ◌||◌, some, List, [], ◌∷◌,
  arith, suc_not_zero, Bool-cases, length, get_or, set, length-set, get_or-set_self, All,
  All-append,
}
use mathlib.Core.Path.{subst}
use cpu_cpp.Ring.{
  next, place, distance, next_cases, next-lt, place-lt, place-next, window, window-set_out,
  window-snoc,
}
use cpu_cpp.Rob.Entry.{Entry, blank}
use cpu_cpp.Rob.Buffer.{Buffer, commit}
use cpu_cpp.Rob.Contents.{IsClear, IsValid}
use cpu_cpp.Rob.Queue
use cpu_cpp.Rob.Queue.{Queue, view}

module _ (cap : ℕ) where
  -- The array after the head has been cleared, seen from the place behind it.
  rest_same :
      (es : List Entry) (h m : ℕ)
      → h < cap
      → suc m ≤ cap
      → window cap (set es h blank) blank (next cap h) m ≡ window cap es blank (next cap h) m
  rest_same es h m p q =
      window-set_out cap es blank (next cap h) m h blank (next-lt cap h p) p
        (ground (arith, next_cases cap h p))

  freed :
      (es : List Entry) (h t m : ℕ)
      → length es ≡ cap
      → h < cap
      → suc m ≤ cap
      → t ≡ place cap h (suc m)
      → All IsClear (window cap es blank t (cap - suc m))
      → All IsClear (window cap (set es h blank) blank t (cap - m))
  freed es h t m s p q a w =
      let t_in : t < cap = omega (arith, a, place-lt cap h (suc m) p q) in
      let end : place cap t (cap - suc m) ≡ h = rw a (ground arith) in
      let far : cap - suc m ≤ distance cap t h = rw a (ground arith) in
      subst (λ k. All IsClear (window cap (set es h blank) blank t k))
        (let e : suc (cap - suc m) ≡ cap - m = omega arith in e)
        (subst (All IsClear)
          (sym (window-snoc cap (set es h blank) blank t (cap - suc m) t_in (omega arith)))
          (All-append IsClear (window cap (set es h blank) blank t (cap - suc m))
            (get_or (set es h blank) (place cap t (cap - suc m)) blank ∷ [])
            (rw (window-set_out cap es blank t (cap - suc m) h blank t_in p far) w)
            (
              rw end (ap (λ (e : Entry). e.valid) (get_or-set_self es h blank blank (omega arith))),
              tt,
            )))

  commit_pieces :
      (es : List Entry) (h t m : ℕ)
      → IsValid cap (record { entries = es; head = h; tail = t; count = suc m })
      → IsValid cap (record { entries = set es h blank; head = next cap h; tail = t; count = m })
  commit_pieces es h t m v = record {
    sized = length-set es h blank ∙ v.sized;
    head_in = next-lt cap h v.head_in;
    count_in = omega arith;
    tail_at = v.tail_at ∙ sym (place-next cap h m v.head_in (omega arith));
    live = rw (rest_same es h m v.head_in v.count_in) v.live.2;
    clear = freed es h t m v.sized v.head_in v.count_in v.tail_at v.clear;
  }

  pred_suc : (m : ℕ) → suc m - 1 ≡ m
  pred_suc m = omega arith

  commit-IsValid_fields :
      (es : List Entry) (h t c : ℕ)
      → (let rob : Buffer = record { entries = es; head = h; tail = t; count = c } in
          IsValid cap rob → IsValid cap (commit cap rob).1)
  unfolding commit
  commit-IsValid_fields es h t zero v = v
  commit-IsValid_fields es h t (suc m) v =
      elim (Bool-cases (not (get_or es h blank).valid || not (get_or es h blank).completed)) [
        | inl e ↦ rw (suc_not_zero m, e) v
        | inr e ↦ rw (suc_not_zero m, e, pred_suc m) (commit_pieces es h t m v)
      ]

  -- `commit` keeps a well-formed buffer well formed.
  pub commit-IsValid : (rob : Buffer) → IsValid cap rob → IsValid cap (commit cap rob).1
  commit-IsValid rob v = commit-IsValid_fields rob.entries rob.head rob.tail rob.count v

  commit_same :
      (es : List Entry) (h t c : ℕ)
      → (let rob : Buffer = record { entries = es; head = h; tail = t; count = c } in
          IsValid cap rob
          → (let (e, rob') = commit cap rob in (e, view cap rob'))
            ≡ Queue.commit cap (view cap rob))
  unfolding commit Queue.commit
  commit_same es h t zero v = refl
  commit_same es h t (suc m) v = elim (Bool-cases (get_or es h blank).completed) [
    | inl e ↦
        rw (suc_not_zero m, v.live.0, e, pred_suc m)
          (ap (λ l. (some (get_or es h blank), record { first = next cap h; items = l }))
            (rest_same es h m v.head_in v.count_in))
    | inr e ↦ rw (suc_not_zero m, v.live.0, e) refl
  ]

  -- On a well-formed buffer `commit` takes the oldest entry of the queue exactly where that is
  -- completed, and changes nothing elsewhere.
  pub commit_refines :
      (rob : Buffer)
      → IsValid cap rob
      → (let (e, rob') = commit cap rob in (e, view cap rob')) ≡ Queue.commit cap (view cap rob)
  commit_refines rob v = commit_same rob.entries rob.head rob.tail rob.count v
