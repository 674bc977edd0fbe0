-- ===== src/Rob/Allocate.antt =====
-- `reset` and `allocate` of superscalar/core/dispatch/ReOrderBuffer.hpp beside the specification.
use cpu_cpp.Base.{
  ℕ, zero, suc, ◌+◌, ◌-◌, ◌≤◌, ◌<◌, ◌≡◌, refl, sym, ap, ◌∙◌, inl, inr, true, false, not, ◌&&◌, ◌||◌,
  Option, none, some, List, [], ◌∷◌, ◌++◌, arith, ltb, ◌==◌, Bool-cases, length, set, replicate,
  length-set, length-replicate, get_or-set_self, get_or-replicate, All,
}
use mathlib.Core.Path.{ap₂, subst}
use cpu_cpp.Ring.{
  next, place, distance, next_cases, next-lt, next-place, window-append, distance-place, place-lt,
  window, window-set_out, length-window,
}
use cpu_cpp.Rename.AliasTable.{Checkpoint}
use cpu_cpp.Rename.Bundle.{RenameBundle}
use cpu_cpp.Rob.Entry.{Entry, blank, entry_of}
use cpu_cpp.Rob.Buffer.{Buffer, reset, allocate}
use cpu_cpp.Rob.Contents.{contents, IsClear, Placed, IsValid}
use cpu_cpp.Rob.Queue
use cpu_cpp.Rob.Queue.{Queue, view, finish}
use cpu_cpp.Rob.Places.{Placed-snoc}

module _ (cap : ℕ) where
  clear_replicate : (m h n : ℕ) → All IsClear (window cap (replicate m blank) blank h n)
  clear_replicate m h zero = tt
  clear_replicate m h (suc n) =
      (ap (λ (e : Entry). e.valid) (get_or-replicate m h blank), clear_replicate m (next cap h) n)

  -- A buffer after `reset` is well formed and empty.
  pub reset-IsValid : 0 < cap → IsValid cap (reset cap) × (contents cap (reset cap) ≡ [])
  unfolding reset
  reset-IsValid p = (
    record {
      sized = length-replicate cap blank;
      head_in = p;
      count_in = omega arith;
      tail_at = ground arith;
      live = tt;
      clear = clear_replicate cap 0 (cap - 0);
    },
    refl,
  )

  Placed-window_set :
      (es : List Entry) (h n i : ℕ) (e : Entry)
      → h < cap
      → i < cap
      → n ≤ distance cap h i
      → Placed cap h (window cap es blank h n)
      → Placed cap h (window cap (set es i e) blank h n)
  Placed-window_set es h n i e p q r w = rw (window-set_out cap es blank h n i e p q r) w

  pub clear-window_set :
      (es : List Entry) (h n i : ℕ) (e : Entry)
      → h < cap
      → i < cap
      → n ≤ distance cap h i
      → All IsClear (window cap es blank h n)
      → All IsClear (window cap (set es i e) blank h n)
  clear-window_set es h n i e p q r w = rw (window-set_out cap es blank h n i e p q r) w

  entry_of_fields :
      (b : RenameBundle) (t : ℕ) (cp : Option Checkpoint)
      → ((entry_of b t cp).valid ≡ true) × ((entry_of b t cp).rob_index ≡ t)
  unfolding entry_of
  entry_of_fields b t none = (refl, refl)
  entry_of_fields b t (some cp) = ground arith

  -- The contents after a write behind the last entry.
  grow :
      (es : List Entry) (h n : ℕ) (e : Entry)
      → length es ≡ cap
      → h < cap
      → n < cap
      → window cap (set es (place cap h n) e) blank h (n + 1) ≡ window cap es blank h n ++ (e ∷ [])
  grow es h n e s p q =
      window-append cap (set es (place cap h n) e) blank h n 1 p (omega arith)
      ∙ ap₂ (λ a b. a ++ (b ∷ []))
          (window-set_out cap es blank h n (place cap h n) e p (place-lt cap h n p (omega arith))
            (omega (arith, distance-place cap h n p q)))
          (get_or-set_self es (place cap h n) e blank
            (omega (arith, place-lt cap h n p (omega arith))))

  live_grow :
      (es : List Entry) (h n t : ℕ) (e : Entry)
      → length es ≡ cap
      → h < cap
      → n < cap
      → t ≡ place cap h n
      → Placed cap h (window cap es blank h n)
      → e.valid ≡ true
      → e.rob_index ≡ t
      → Placed cap h (window cap (set es t e) blank h (n + 1))
  live_grow es h n t e s p q a w v i = rw a (
      rw (grow es h n e s p q) (
        Placed-snoc cap h (window cap es blank h n) e p
          (omega (arith, length-window cap es blank h n)) w v
          (i ∙ a ∙ ap (place cap h) (sym (length-window cap es blank h n)))))

  clear_grow :
      (es : List Entry) (t c : ℕ) (e : Entry)
      → t < cap
      → c < cap
      → All IsClear (window cap es blank t (cap - c))
      → All IsClear (window cap (set es t e) blank (next cap t) (cap - (c + 1)))
  clear_grow es t c e p q w =
      let m : cap - c ≡ suc (cap - (c + 1)) = omega arith in
      let w' : All IsClear (window cap es blank t (suc (cap - (c + 1)))) =
        subst (λ k. All IsClear (window cap es blank t k)) m w in
      clear-window_set es (next cap t) (cap - (c + 1)) t e (next-lt cap t p) p
        (ground (arith, next_cases cap t p)) w'.1

  allocate_room :
      (rob : Buffer) (e : Entry)
      → IsValid cap rob
      → rob.count < cap
      → e.valid ≡ true
      → e.rob_index ≡ rob.tail
      → IsValid cap (record rob {
        entries = set rob.entries rob.tail e;
        tail = next cap rob.tail;
        count = rob.count + 1;
      })
  allocate_room rob e v p q r =
      let tail_in : rob.tail < cap =
        omega (arith, v.tail_at, place-lt cap rob.head rob.count v.head_in v.count_in) in
      record {
        sized = length-set rob.entries rob.tail e ∙ v.sized;
        head_in = v.head_in;
        count_in = omega arith;
        tail_at =
            ap (next cap) v.tail_at
            ∙ next-place cap rob.head rob.count v.head_in p
            ∙ ap (place cap rob.head) (omega arith);
        live =
            live_grow rob.entries rob.head rob.count rob.tail e v.sized v.head_in p v.tail_at v.live
              q r;
        clear = clear_grow rob.entries rob.tail rob.count e tail_in p v.clear;
      }

  -- `allocate` keeps a well-formed buffer well formed.
  pub allocate-IsValid :
      (rob : Buffer) (b : RenameBundle) (cp : Option Checkpoint)
      → IsValid cap rob
      → IsValid cap (allocate cap rob b cp).1
  unfolding allocate
  allocate-IsValid rob b cp v = elim (Bool-cases (not b.valid || rob.count == cap)) [
    | inl e ↦ rw e v
    | inr e ↦
        let (valid, index) = entry_of_fields b rob.tail cp in
        rw e (allocate_room rob (entry_of b rob.tail cp) v (ground arith) valid index)
  ]

  -- On a well-formed buffer `allocate` gives the index and the queue that the specification gives:
  -- the place behind the youngest entry where the bundle is valid and the queue is not full, and no
  -- change elsewhere.
  pub allocate_refines :
      (rob : Buffer) (b : RenameBundle) (cp : Option Checkpoint)
      → IsValid cap rob
      → (let (i, rob') = allocate cap rob b cp in (i, view cap rob'))
        ≡ Queue.allocate cap (view cap rob) b cp
  unfolding allocate Queue.allocate
  allocate_refines rob b cp v = elim (Bool-cases (not b.valid || rob.count == cap)) [
    | inl e ↦ rw (e, refused e)
    | inr e ↦ rw (e, granted e) (same (ground arith))
  ]
    where
      len : length (contents cap rob) ≡ rob.count
      len = length-window cap rob.entries blank rob.head rob.count

      refused :
          (not b.valid || rob.count == cap) ≡ true
          → (b.valid && ltb (length (contents cap rob)) cap) ≡ false
      refused e = ground (arith, len)

      granted :
          (not b.valid || rob.count == cap) ≡ false
          → (b.valid && ltb (length (contents cap rob)) cap) ≡ true
      granted e = ground (arith, len)

      same :
          rob.count < cap
          → ◌≡◌ {A = Option ℕ × Queue}
              (
                some rob.tail,
                record {
                  first = rob.head;
                  items =
                      window cap
                        (set rob.entries rob.tail (entry_of b rob.tail cp))
                        blank
                        rob.head
                        (rob.count + 1);
                },
              )
              (
                some (place cap rob.head (length (contents cap rob))),
                record {
                  first = rob.head;
                  items =
                      contents cap rob
                      ++ (entry_of b (place cap rob.head (length (contents cap rob))) cp ∷ []);
                },
              )
      same p =
          let at : rob.tail ≡ place cap rob.head (length (contents cap rob)) =
            v.tail_at ∙ ap (place cap rob.head) (sym len) in
          let items =
            ap
              (λ t.
                window cap (set rob.entries t (entry_of b rob.tail cp)) blank rob.head
                  (rob.count + 1))
              v.tail_at
            ∙ grow rob.entries rob.head rob.count (entry_of b rob.tail cp) v.sized v.head_in p
            ∙ ap (λ t. contents cap rob ++ (entry_of b t cp ∷ [])) at in
          λ i. (some (at i), record { first = rob.head; items = items i })
