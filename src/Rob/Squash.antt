-- ===== src/Rob/Squash.antt =====
-- `squash_younger_than` of superscalar/core/dispatch/ReOrderBuffer.hpp: the entries behind the
-- branch leave, in program order, and a second call finds nothing to remove.
use cpu_cpp.Base.{
  ℕ, zero, suc, ◌+◌, ◌-◌, ◌≤◌, ◌<◌, ◌≡◌, refl, sym, ap, ◌∙◌, ◌⊎◌, inl, inr, none, some, List, [],
  ◌∷◌, map, arith, ◌==◌, ==_iff, Bool-cases, get_or, All,
}
use mathlib.Core.Path.{ap₂, subst}
use native.Mathlib.Nat.{suc-add, zero-add}
use cpu_cpp.Ring.{
  next, place, next-lt, next-place, place-lt, place-next, place-zero, place-place, window,
}
use cpu_cpp.Rob.Entry.{Entry, blank}
use cpu_cpp.Rob.Buffer.{Buffer, locate, squash_from, squash_younger_than}
use cpu_cpp.Rob.Contents.{contents, IsClear, Placed, IsValid}
use cpu_cpp.Rob.Queue
use cpu_cpp.Rob.Queue.{Queue, view, cut}
use cpu_cpp.Rob.Sweep.{place_of, swept, length-swept, sweep_collects, swept_before, swept_clear}

-- A buffer by its parts.
abbrev parts_of : List Entry → ℕ → ℕ → ℕ → Buffer
parts_of es h t c = record { entries = es; head = h; tail = t; count = c }

module _ (cap : ℕ) where
  -- Where the search stops, `k` steps on, and how this cuts the list.
  Found : ℕ → ℕ → ℕ → List Entry → ℕ → Type 0
  Found i h n es pos =
      (k : ℕ) × (k < n)
      × (place cap h k ≡ i)
      × (locate cap i n h pos ≡ some (pos + k))
      × (cut i (window cap es blank h n)
          ≡ (window cap es blank h (suc k), window cap es blank (place cap h (suc k)) (n - suc k)))

  Missed : ℕ → ℕ → ℕ → List Entry → ℕ → Type 0
  Missed i h n es pos =
      (locate cap i n h pos ≡ none)
      × (cut i (window cap es blank h n) ≡ (window cap es blank h n, []))

  locate_cases :
      (i n h : ℕ) (es : List Entry) (pos : ℕ)
      → h < cap
      → n ≤ cap
      → Placed cap h (window cap es blank h n)
      → Found i h n es pos ⊎ Missed i h n es pos
  unfolding locate cut Found Missed
  locate_cases i zero h es pos p q w = inr (refl, refl)
  locate_cases i (suc n) h es pos p q w = elim (Bool-cases (h == i)) [
    | inl e ↦ inl (
      0,
      omega arith,
      place-zero cap h p ∙ (==_iff h i).0 e,
      rw e (ap some (omega arith)),
      rw (w.1, e)
          (ap₂ (λ a m. (get_or es h blank ∷ [], window cap es blank a m))
            (ap (next cap) (sym (place-zero cap h p)) ∙ next-place cap h 0 p (omega arith))
            (omega arith)),
    )
    | inr e ↦
        elim (locate_cases i n (next cap h) es (pos + 1) (next-lt cap h p) (omega arith) w.2) [
          | inl (k, lt, at, found, parts) ↦ inl (
            suc k,
            omega arith,
            sym (place-next cap h k p (omega arith)) ∙ at,
            rw e (found ∙ ap some (omega arith)),
            rw (w.1, e, parts)
                (ap₂
                  (λ a m. (
                    get_or es h blank ∷ window cap es blank (next cap h) (suc k),
                    window cap es blank a m,
                  ))
                  (place-next cap h (suc k) p (omega arith)) (omega arith)),
          )
          | inr (missed, whole) ↦ inr (rw e missed, rw (w.1, e, whole))
        ]
  ]

  Placed-append :
      (h m n : ℕ) (es : List Entry)
      → h < cap
      → m + n ≤ cap
      → Placed cap h (window cap es blank h (m + n))
      → Placed cap h (window cap es blank h m)
        × Placed cap (place cap h m) (window cap es blank (place cap h m) n)
  Placed-append h zero n es p q w = (
    tt,
    rw (place-zero cap h p) (subst (λ k. Placed cap h (window cap es blank h k)) (zero-add n) w),
  )
  Placed-append h (suc m) n es p q w =
      let w' : Placed cap h (window cap es blank h (suc (m + n))) =
        subst (λ k. Placed cap h (window cap es blank h k)) (suc-add m n) w in
      let (a, b) = Placed-append (next cap h) m n es (next-lt cap h p) (omega arith) w'.2 in
      ((w'.0, w'.1, a), rw (← place-next cap h m p (omega arith)) b)

  -- The buffer after a squash behind the entry `k` steps from the head, `n` entries from the end.
  cut_back : List Entry → ℕ → ℕ → ℕ → Buffer
  cut_back es h n k = record {
    entries = swept cap n (place cap h (suc k)) es;
    head = h;
    tail = place cap h (suc k);
    count = suc k;
  }

  cut_back-IsValid :
      (es : List Entry) (h t n k : ℕ)
      → IsValid cap (record { entries = es; head = h; tail = t; count = suc k + n })
      → IsValid cap (cut_back es h n k)
        × (contents cap (cut_back es h n k) ≡ window cap es blank h (suc k))
  unfolding cut_back
  cut_back-IsValid es h t n k v =
      let kept = swept_before cap n (suc k) h (suc k) es v.head_in (omega arith) (omega arith) in
      let rest : place cap (place cap h (suc k)) n ≡ t =
        place-place cap h (suc k) n v.head_in v.count_in ∙ sym v.tail_at in
      (
        record {
          sized = length-swept cap n (place cap h (suc k)) es ∙ v.sized;
          head_in = v.head_in;
          count_in = omega arith;
          tail_at = refl;
          live =
              subst (Placed cap h) (sym kept)
                (Placed-append h (suc k) n es v.head_in v.count_in v.live).0;
          clear =
              subst
                (λ m.
                  All IsClear (
                    window cap (swept cap n (place cap h (suc k)) es) blank (place cap h (suc k))
                      m))
                (let e : n + (cap - (suc k + n)) ≡ cap - suc k = omega arith in e)
                (swept_clear cap n (place cap h (suc k)) (cap - (suc k + n)) es v.sized
                  (place-lt cap h (suc k) v.head_in (omega arith)) (omega arith) (rw rest v.clear));
        },
        kept,
      )

  squash_found :
      (es : List Entry) (h t n k i : ℕ)
      → IsValid cap (parts_of es h t (suc k + n))
      → place cap h k ≡ i
      → squash_from cap (parts_of es h t (suc k + n)) i (some (0 + k)) ≡ (
        window cap es blank (place cap h (suc k)) n,
        map place_of (window cap es blank (place cap h (suc k)) n),
        cut_back es h n k,
      )
  unfolding squash_from cut_back
  squash_found es h t n k i v at =
      let steps : suc k + n - (0 + k) - 1 ≡ n = omega arith in
      let left : suc k + n - n ≡ suc k = omega arith in
      let start : next cap i ≡ place cap h (suc k) =
        ap (next cap) (sym at) ∙ next-place cap h k v.head_in (omega arith) in
      let (gone, places) =
        sweep_collects cap n (place cap h (suc k)) es
          (place-lt cap h (suc k) v.head_in (omega arith)) (omega arith)
          (Placed-append h (suc k) n es v.head_in v.count_in v.live).1 in
      rw (steps, left, start, gone, places)

  -- What the result of one call is to mean.
  Means : Buffer → ℕ → List Entry × List ℕ × Buffer → Type 0
  Means rob i (gone, indices, rob') =
      IsValid cap rob'
      × ((gone, view cap rob') ≡ Queue.squash_younger_than (view cap rob) i)
      × (indices ≡ map place_of gone)

  Squashed : Buffer → ℕ → Type 0
  Squashed rob i = Means rob i (squash_younger_than cap rob i)

  squash_at :
      (es : List Entry) (h t n k i : ℕ)
      → place cap h k ≡ i
      → IsValid cap (parts_of es h t (suc k + n))
      → locate cap i (suc k + n) h 0 ≡ some (0 + k)
      → cut i (window cap es blank h (suc k + n))
        ≡ (window cap es blank h (suc k), window cap es blank (place cap h (suc k)) n)
      → Squashed (parts_of es h t (suc k + n)) i
  unfolding Squashed Means squash_younger_than Queue.squash_younger_than cut_back
  squash_at es h t n k i at v found parts =
      let rob = parts_of es h t (suc k + n) in
      let gone = window cap es blank (place cap h (suc k)) n in
      let (valid, kept) = cut_back-IsValid es h t n k v in
      subst (Means rob i) (sym (ap (squash_from cap rob i) found ∙ squash_found es h t n k i v at))
        (valid, rw parts (ap (λ l. (gone, record { first = h; items = l })) kept), refl)

  squash_same :
      (es : List Entry) (h t c i : ℕ)
      → IsValid cap (parts_of es h t c)
      → Squashed (parts_of es h t c) i
  unfolding Squashed Means squash_younger_than Queue.squash_younger_than Found Missed
  squash_same es h t c i v = elim (locate_cases i c h es 0 v.head_in v.count_in v.live) [
    | inl (k, lt, at, found, parts) ↦
        subst
          (λ m.
            IsValid cap (parts_of es h t m)
            → locate cap i m h 0 ≡ some (0 + k)
            → cut i (window cap es blank h m) ≡ (
              window cap es blank h (suc k),
              window cap es blank (place cap h (suc k)) (c - suc k),
            )
            → Squashed (parts_of es h t m) i)
          (let e : suc k + (c - suc k) ≡ c = omega arith in e) (squash_at es h t (c - suc k) k i at)
          v found parts
    | inr (missed, whole) ↦ rw (missed, whole) (v, refl, refl)
  ]

  -- `squash_younger_than` keeps a well-formed buffer well formed.
  pub squash-IsValid :
      (rob : Buffer) (i : ℕ) → IsValid cap rob → IsValid cap (squash_younger_than cap rob i).2
  unfolding Squashed Means
  squash-IsValid rob i v = (squash_same rob.entries rob.head rob.tail rob.count i v).0

  -- On a well-formed buffer `squash_younger_than` cuts the queue behind the entry of that place, and
  -- returns what it cut off, oldest first, with the places; it changes nothing where no entry has
  -- the place.
  pub squash_refines :
      (rob : Buffer) (i : ℕ)
      → IsValid cap rob
      → (let (gone, indices, rob') = squash_younger_than cap rob i in
          ((gone, view cap rob') ≡ Queue.squash_younger_than (view cap rob) i)
          × (indices ≡ map place_of gone))
  unfolding Squashed Means
  squash_refines rob i v =
      let s = squash_same rob.entries rob.head rob.tail rob.count i v in (s.1, s.2)

  cut_again : (i : ℕ) (es : List Entry) → (cut i (cut i es).0).1 ≡ []
  unfolding cut
  cut_again i [] = refl
  cut_again i (e ∷ es) = elim (Bool-cases (e.rob_index == i)) [
    | inl q ↦ rw (q, q)
    | inr q ↦ rw (q, q) (cut_again i es)
  ]

  -- On a well-formed buffer, a second call for the same branch removes nothing and reports no
  -- index, whatever the first call removed.
  pub squash_twice :
      (rob : Buffer) (i : ℕ)
      → IsValid cap rob
      → (let rob' = (squash_younger_than cap rob i).2 in
          ((squash_younger_than cap rob' i).0 ≡ []) × ((squash_younger_than cap rob' i).1 ≡ []))
  unfolding Queue.squash_younger_than
  squash_twice rob i v =
      let first = squash_refines rob i v in
      let second = squash_refines (squash_younger_than cap rob i).2 i (squash-IsValid rob i v) in
      let gone =
        ap (λ p. p.0) second.0
        ∙ ap (λ q. (Queue.squash_younger_than q i).0) (ap (λ p. p.1) first.0)
        ∙ cut_again i (contents cap rob) in
      (gone, second.1 ∙ ap (map place_of) gone)
