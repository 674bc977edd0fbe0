-- ===== src/Rob/Complete.antt =====
-- `complete` of superscalar/core/dispatch/ReOrderBuffer.hpp beside the specification.
use cpu_cpp.Base.{
  ℕ, zero, suc, ◌-◌, ◌≤◌, ◌<◌, ◌≡◌, sym, ap, ◌∙◌, ◌⊎◌, inl, inr, true, false, not, ◌||◌, List, [],
  ◌∷◌, map, arith, ltb, leb, ◌==◌, ltb→lt, leb→le, ==_iff, Bool-cases, length, get_or, set,
  length-set, All,
}
use mathlib.Core.Path.{subst}
use mathlib.Core.Bool.{false≢true}
use cpu_cpp.Ring.{
  next, distance, next_cases, next-lt, distance_before, distance_past, place-lt, window,
  length-window,
}
use cpu_cpp.Rob.Entry.{Entry, blank, complete_entry}
use cpu_cpp.Rob.Buffer.{Buffer, complete}
use cpu_cpp.Rob.Contents.{contents, IsClear, Placed, IsValid}
use cpu_cpp.Rob.Queue
use cpu_cpp.Rob.Queue.{Queue, view, finish}
use cpu_cpp.Rob.Places.{map-finish_out, window-finish}
use cpu_cpp.Rob.Allocate.{clear-window_set}

module _ (cap : ℕ) where
  -- Completing

  clear_at :
      (es : List Entry) (t n i : ℕ)
      → t < cap
      → i < cap
      → distance cap t i < n
      → All IsClear (window cap es blank t n)
      → (get_or es i blank).valid ≡ false
  clear_at es t zero i p q r w = elim r [ ]
  clear_at es t (suc n) i p q r w = elim (Bool-cases (t == i)) [
    | inl e ↦ subst (λ k. (get_or es k blank).valid ≡ false) ((==_iff t i).0 e) w.0
    | inr e ↦
        clear_at es (next cap t) n i (next-lt cap t p) q (ground (arith, next_cases cap t p)) w.1
  ]

  live_at :
      (es : List Entry) (t n i : ℕ)
      → t < cap
      → i < cap
      → distance cap t i < n
      → Placed cap t (window cap es blank t n)
      → (get_or es i blank).valid ≡ true
  live_at es t zero i p q r w = elim r [ ]
  live_at es t (suc n) i p q r w = elim (Bool-cases (t == i)) [
    | inl e ↦ subst (λ k. (get_or es k blank).valid ≡ true) ((==_iff t i).0 e) w.0
    | inr e ↦
        live_at es (next cap t) n i (next-lt cap t p) q (ground (arith, next_cases cap t p)) w.2
  ]

  -- A valid entry of the array stands in the queue.
  pub valid_within :
      (rob : Buffer) (i : ℕ)
      → IsValid cap rob
      → i < cap
      → (get_or rob.entries i blank).valid ≡ true
      → distance cap rob.head i < rob.count
  valid_within rob i v p q = elim (Bool-cases (ltb (distance cap rob.head i) rob.count)) [
    | inl e ↦ ltb→lt _ _ e
    | inr e ↦ absurd (false≢true (sym (stale (ground arith)) ∙ q))
  ]
    where
      stale : rob.count ≤ distance cap rob.head i → (get_or rob.entries i blank).valid ≡ false
      stale b =
          clear_at rob.entries rob.tail (cap - rob.count) i
            (omega (arith, v.tail_at, place-lt cap rob.head rob.count v.head_in v.count_in)) p
            (rw v.tail_at
              (ground (arith, distance_before cap rob.head rob.count i v.head_in v.count_in p b)))
            v.clear

  -- Where no entry completes, the search in the queue finds none either.
  nothing_there :
      (rob : Buffer) (i : ℕ)
      → IsValid cap rob
      → (leb cap i || not (get_or rob.entries i blank).valid) ≡ true
      → (cap ≤ i) ⊎ ((i < cap) × (length (contents cap rob) ≤ distance cap rob.head i))
  nothing_there rob i v e = elim (Bool-cases (leb cap i)) [
    | inl b ↦ inl (leb→le _ _ b)
    | inr b ↦ elim (Bool-cases (ltb (distance cap rob.head i) rob.count)) [
      | inl d ↦ absurd (
          dead (ground arith) b (
            live_at rob.entries rob.head rob.count i v.head_in (ground arith) (ltb→lt _ _ d)
              v.live))
      | inr d ↦
          inr (ground arith, ground (arith, length-window cap rob.entries blank rob.head rob.count))
    ]
  ]
    where
      dead : i < cap → leb cap i ≡ false → (get_or rob.entries i blank).valid ≡ true → ⊥
      dead p b l = ground arith

  complete_place :
      (rob : Buffer) (i r : ℕ)
      → IsValid cap rob
      → i < cap
      → distance cap rob.head i < rob.count
      → contents cap (record rob {
        entries = set rob.entries i (complete_entry r (get_or rob.entries i blank));
      })
        ≡ map (finish i r) (contents cap rob)
  complete_place rob i r v p q =
      window-finish cap rob.entries rob.head rob.count i r v.head_in (omega (arith, v.sized))
        v.sized v.count_in q v.live

  -- On a well-formed buffer `complete` completes the entry of that place in the queue, and changes
  -- nothing where there is none, whatever the index.
  pub complete_refines :
      (rob : Buffer) (i r : ℕ)
      → IsValid cap rob
      → view cap (complete cap rob i r) ≡ Queue.complete (view cap rob) i r
  unfolding complete Queue.complete
  complete_refines rob i r v =
      elim (Bool-cases (leb cap i || not (get_or rob.entries i blank).valid)) [
        | inl e ↦ rw e (
            ap (λ es. record { first = rob.head; items = es })
              (sym (
                map-finish_out cap rob.head (contents cap rob) i r v.head_in
                  (omega
                    (arith, v.count_in, length-window cap rob.entries blank rob.head rob.count))
                  v.live (nothing_there rob i v e))))
        | inr e ↦ rw e (
            ap (λ es. record { first = rob.head; items = es })
              (complete_place rob i r v (ground arith)
                (valid_within rob i v (ground arith) (ground arith))))
      ]

  Placed-finish :
      (h i r : ℕ) (es : List Entry) → Placed cap h es → Placed cap h (map (finish i r) es)
  unfolding complete_entry
  Placed-finish h i r [] w = tt
  Placed-finish h i r (e ∷ es) w =
      (ground (arith, w.0), ground (arith, w.1), Placed-finish (next cap h) i r es w.2)

  -- `complete` keeps a well-formed buffer well formed.
  pub complete-IsValid :
      (rob : Buffer) (i r : ℕ) → IsValid cap rob → IsValid cap (complete cap rob i r)
  unfolding complete
  complete-IsValid rob i r v =
      elim (Bool-cases (leb cap i || not (get_or rob.entries i blank).valid)) [
        | inl e ↦ rw e v
        | inr e ↦ rw e (written (ground arith) (valid_within rob i v (ground arith) (ground arith)))
      ]
    where
      written :
          i < cap
          → distance cap rob.head i < rob.count
          → IsValid cap (record rob {
            entries = set rob.entries i (complete_entry r (get_or rob.entries i blank));
          })
      written p d = record {
        sized = length-set rob.entries i _ ∙ v.sized;
        head_in = v.head_in;
        count_in = v.count_in;
        tail_at = v.tail_at;
        live =
            rw (complete_place rob i r v p d)
              (Placed-finish rob.head i r (contents cap rob) v.live);
        clear =
            clear-window_set cap rob.entries rob.tail (cap - rob.count) i _
              (omega (arith, v.tail_at, place-lt cap rob.head rob.count v.head_in v.count_in)) p
              (rw v.tail_at (distance_past cap rob.head rob.count i v.head_in v.count_in p d))
              v.clear;
      }
