-- ===== src/Ring.antt =====
-- Circular arrays: the elements met on a walk through an array of `cap` places, as the loops of
-- superscalar/core/dispatch/ReOrderBuffer.hpp take it.
use cpu_cpp.Base.{
  ℕ, zero, suc, ◌+◌, ◌-◌, ◌%◌, ◌≤◌, ◌<◌, ◌≡◌, refl, ap, ◌∙◌, ◌⊎◌, inl, inr, List, [], ◌∷◌, ◌++◌,
  arith, ltb, leb, if◌then◌else◌, ltb→lt, Bool-cases, length, get_or, set, get_or-set_ne,
}
use mathlib.Core.Path.{ap₂, subst}
use native.Mathlib.Nat.{mod-eq_of_lt, mod_self, zero-add, suc-add}

-- `(index + 1) % Capacity`
abbrev pub next : ℕ → ℕ → ℕ
next cap index = (index + 1) % cap

-- The place `k` steps after `h`, for `h < cap` and `k ≤ cap`.
abbrev pub place : ℕ → ℕ → ℕ → ℕ
place cap h k = if ltb (h + k) cap then h + k else h + k - cap

-- How many steps lead from `h` to `i`.
abbrev pub distance : ℕ → ℕ → ℕ → ℕ
distance cap h i = if leb h i then i - h else cap - h + i

pub next_cases :
    (cap h : ℕ)
    → h < cap
    → ((next cap h ≡ h + 1) × (h + 1 < cap)) ⊎ ((next cap h ≡ 0) × (h + 1 ≡ cap))
next_cases cap h p = elim (Bool-cases (ltb (h + 1) cap)) [
  | inl e ↦ inl (mod-eq_of_lt (ltb→lt _ _ e), ltb→lt _ _ e)
  | inr e ↦ let q : h + 1 ≡ cap = ground arith in inr (rw q (mod_self cap), q)
]

pub next-lt : (cap h : ℕ) → h < cap → next cap h < cap
next-lt cap h p = ground (arith, next_cases cap h p)

pub place-lt : (cap h k : ℕ) → h < cap → k ≤ cap → place cap h k < cap
place-lt cap h k p q = ground arith

pub place-zero : (cap h : ℕ) → h < cap → place cap h 0 ≡ h
place-zero cap h p = ground arith

pub next-place : (cap h k : ℕ) → h < cap → k < cap → next cap (place cap h k) ≡ place cap h (suc k)
next-place cap h k p q =
    ground (arith, next_cases cap (place cap h k) (place-lt cap h k p (omega arith)))

pub place-next : (cap h k : ℕ) → h < cap → k < cap → place cap (next cap h) k ≡ place cap h (suc k)
place-next cap h k p q = ground (arith, next_cases cap h p)

pub distance-place : (cap h k : ℕ) → h < cap → k < cap → distance cap h (place cap h k) ≡ k
distance-place cap h k p q = ground arith

pub place-distance : (cap h i : ℕ) → h < cap → i < cap → place cap h (distance cap h i) ≡ i
place-distance cap h i p q = ground arith

pub place-place :
    (cap h a b : ℕ) → h < cap → a + b ≤ cap → place cap (place cap h a) b ≡ place cap h (a + b)
place-place cap h a b p q = ground arith

-- The distance seen from a place further on: short of `i`, and past it.
pub distance_before :
    (cap h c i : ℕ)
    → h < cap
    → c ≤ cap
    → i < cap
    → c ≤ distance cap h i
    → distance cap (place cap h c) i + c ≡ distance cap h i
distance_before cap h c i p q r s = ground arith

pub distance_past :
    (cap h c i : ℕ)
    → h < cap
    → c ≤ cap
    → i < cap
    → distance cap h i < c
    → cap - c ≤ distance cap (place cap h c) i
distance_past cap h c i p q r s = ground arith

pub distance-next :
    (cap h i n : ℕ) → h < cap → i < cap → suc n ≤ distance cap h i → n ≤ distance cap (next cap h) i
distance-next cap h i n p q r = ground (arith, next_cases cap h p)

module _ {ℓ} {A : Type ℓ} (cap : ℕ) where
  -- `n` elements from index `h` on; `d` stands for a read out of range.
  abbrev pub window : List A → A → ℕ → ℕ → List A
  window es d h zero = []
  window es d h (suc n) = get_or es h d ∷ window es d (next cap h) n

  pub length-window : (es : List A) (d : A) (h n : ℕ) → length (window es d h n) ≡ n
  length-window es d h zero = refl
  length-window es d h (suc n) = ap suc (length-window es d (next cap h) n)

  -- A write behind the window is not seen.
  pub window-set_out :
      (es : List A) (d : A) (h n i : ℕ) (v : A)
      → h < cap
      → i < cap
      → n ≤ distance cap h i
      → window (set es i v) d h n ≡ window es d h n
  window-set_out es d h zero i v p q r = refl
  window-set_out es d h (suc n) i v p q r =
      ap₂ ◌∷◌ (get_or-set_ne es i h v d (ground arith))
        (window-set_out es d (next cap h) n i v (next-lt cap h p) q (distance-next cap h i n p q r))

  -- A walk in two parts.
  pub window-append :
      (es : List A) (d : A) (h m n : ℕ)
      → h < cap
      → m + n ≤ cap
      → window es d h (m + n) ≡ window es d h m ++ window es d (place cap h m) n
  window-append es d h zero n p q = rw (zero-add, place-zero cap h p)
  window-append es d h (suc m) n p q =
      let e : window es d h (suc m + n) ≡ window es d h (suc (m + n)) = rw suc-add in
      e
      ∙ ap (λ l. get_or es h d ∷ l)
          (window-append es d (next cap h) m n (next-lt cap h p) (omega arith)
            ∙ rw (place-next cap h m p (omega arith)))

  pub window-snoc :
      (es : List A) (d : A) (h n : ℕ)
      → h < cap
      → suc n ≤ cap
      → window es d h (suc n) ≡ window es d h n ++ (get_or es (place cap h n) d ∷ [])
  window-snoc es d h n p q =
      subst (λ k. window es d h k ≡ window es d h n ++ (get_or es (place cap h n) d ∷ []))
        (let e : n + 1 ≡ suc n = omega arith in e) (window-append es d h n 1 p (omega arith))
