-- ===== src/Rob/Places.antt =====
-- Entries on consecutive places: which places they hold, and which writes they do not see.
use cpu_cpp.Base.{
  ℕ, zero, suc, ◌≤◌, ◌<◌, ◌≡◌, refl, sym, ap, ◌∙◌, ◌≢◌, ◌⊎◌, inl, inr, true, List, [], ◌∷◌, ◌++◌,
  map, arith, ◌==◌, ==_iff, Bool-cases, length, get_or, set, get_or-set_self, get_or-set_ne,
}
use mathlib.Core.Path.{ap₂}
use cpu_cpp.Ring.{
  next, place, distance, next_cases, next-lt, place-next, place-zero, window, window-set_out,
  length-window,
}
use cpu_cpp.Rob.Entry.{Entry, blank, complete_entry}
use cpu_cpp.Rob.Contents.{Placed}
use cpu_cpp.Rob.Queue.{finish}

pub finish_at : (i v : ℕ) (e : Entry) → e.rob_index ≡ i → finish i v e ≡ complete_entry v e
unfolding complete_entry
finish_at i v e p = ground arith

pub finish_off : (i v : ℕ) (e : Entry) → e.rob_index ≢ i → finish i v e ≡ e
finish_off i v e p = ground arith

module _ (cap : ℕ) where
  pub Placed-snoc :
      (h : ℕ) (es : List Entry) (e : Entry)
      → h < cap
      → length es < cap
      → Placed cap h es
      → e.valid ≡ true
      → e.rob_index ≡ place cap h (length es)
      → Placed cap h (es ++ (e ∷ []))
  Placed-snoc h [] e p q s v i = (v, i ∙ place-zero cap h p, tt)
  Placed-snoc h (x ∷ es) e p q s v i = (
    s.0,
    s.1,
    Placed-snoc (next cap h) es e (next-lt cap h p) (omega arith) s.2 v
        (i ∙ sym (place-next cap h (length es) p (omega arith))),
  )

  -- Behind the last entry no entry has the place.
  pub map-finish_out :
      (h : ℕ) (es : List Entry) (i v : ℕ)
      → h < cap
      → length es ≤ cap
      → Placed cap h es
      → (cap ≤ i) ⊎ ((i < cap) × (length es ≤ distance cap h i))
      → map (finish i v) es ≡ es
  map-finish_out h [] i v p q s o = refl
  map-finish_out h (e ∷ es) i v p q s o = ap₂ ◌∷◌ (ground (arith, s.1)) (
      map-finish_out (next cap h) es i v (next-lt cap h p) (omega arith) s.2
        (ground (arith, next_cases cap h p)))

  -- Completing the entry on place `i` of the array completes the one that carries this place.
  pub window-finish :
      (es : List Entry) (h n i v : ℕ)
      → h < cap
      → i < length es
      → length es ≡ cap
      → n ≤ cap
      → distance cap h i < n
      → Placed cap h (window cap es blank h n)
      → window cap (set es i (complete_entry v (get_or es i blank))) blank h n
        ≡ map (finish i v) (window cap es blank h n)
  window-finish es h zero i v p q r s d w = absurd (omega arith)
  window-finish es h (suc n) i v p q r s d w = elim (Bool-cases (h == i)) [
    | inl e ↦
        let e' : h ≡ i = (==_iff h i).0 e in
        ap₂ ◌∷◌ (head_same e') (
          window-set_out cap es blank (next cap h) n i _ (next-lt cap h p) (omega arith)
            (ground (arith, next_cases cap h p))
          ∙ sym (
              map-finish_out (next cap h) _ i v (next-lt cap h p)
                (omega (arith, length-window cap es blank (next cap h) n)) w.2
                (inr
                  (ground (arith, next_cases cap h p, length-window cap es blank (next cap h) n)))))
    | inr e ↦
        ap₂ ◌∷◌
          (get_or-set_ne es i h _ blank (ground arith)
            ∙ sym (finish_off i v _ (ground (arith, w.1))))
          (window-finish es (next cap h) n i v (next-lt cap h p) q r (omega arith)
            (ground (arith, next_cases cap h p)) w.2)
  ]
    where
      head_same :
          h ≡ i
          → get_or (set es i (complete_entry v (get_or es i blank))) h blank
            ≡ finish i v (get_or es h blank)
      head_same e =
          rw e (get_or-set_self es i _ blank q)
          ∙ ap (λ k. complete_entry v (get_or es k blank)) (sym e)
          ∙ sym (finish_at i v _ (w.1 ∙ e))
