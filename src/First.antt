-- ===== src/First.antt =====
-- Searches: a loop that stops at the first element passing a test.
use cpu_cpp.Base.{
  ◌≡◌, refl, ap, ◌∙◌, ◌⊎◌, inl, inr, Bool, true, false, ◌&&◌, List, [], ◌∷◌, ◌++◌, arith,
  if◌then◌else◌, Bool-cases, All, keep,
}

module _ {ℓ} {A : Type ℓ} where
  -- `x` is the first element of `xs` that passes the test.
  pub record IsFirst (p : A → Bool) (xs : List A) (x : A) : Type ℓ where
    pub before : List A
    pub after : List A
    pub split : xs ≡ before ++ (x ∷ after)
    pub none_before : All (λ y. p y ≡ false) before
    pub passes : p x ≡ true

  -- A loop by that recursion returns what the first passing element gives, or its default.
  pub IsFirst-cases {κ} :
      {B : Type κ} (p : A → Bool) (g : A → B) (z : B) (f : List A → B)
      → f [] ≡ z
      → ((x : A) (xs : List A) → f (x ∷ xs) ≡ (if p x then g x else f xs))
      → (xs : List A)
      → ((x : A) × IsFirst p xs x × (f xs ≡ g x)) ⊎ (All (λ y. p y ≡ false) xs × (f xs ≡ z))
  IsFirst-cases p g z f e s [] = inr (tt, e)
  IsFirst-cases p g z f e s (x ∷ xs) = elim (Bool-cases (p x)) [
    | inl h ↦ inl (
      x,
      record { before = []; after = xs; split = refl; none_before = tt; passes = h },
      s x xs ∙ ap (λ b. if b then g x else f xs) h,
    )
    | inr h ↦ elim (IsFirst-cases p g z f e s xs) [
      | inl (y, i, q) ↦ inl (
        y,
        record {
          before = x ∷ i.before;
          after = i.after;
          split = ap (λ l. x ∷ l) i.split;
          none_before = (h, i.none_before);
          passes = i.passes;
        },
        s x xs ∙ ap (λ b. if b then g x else f xs) h ∙ q,
      )
      | inr (a, q) ↦ inr ((h, a), s x xs ∙ ap (λ b. if b then g x else f xs) h ∙ q)
    ]
  ]

  -- The same for what such a loop computes.
  pub IsFirst-cases_at {κ} :
      {B : Type κ} (p : A → Bool) (g : A → B) (z : B) (f : List A → B)
      → f [] ≡ z
      → ((x : A) (xs : List A) → f (x ∷ xs) ≡ (if p x then g x else f xs))
      → (xs : List A) → {b : B} → b ≡ f xs
      → ((x : A) × IsFirst p xs x × (b ≡ g x)) ⊎ (All (λ y. p y ≡ false) xs × (b ≡ z))
  IsFirst-cases_at p g z f e s xs q = elim (IsFirst-cases p g z f e s xs) [
    | inl (x, i, r) ↦ inl (x, i, q ∙ r)
    | inr (a, r) ↦ inr (a, q ∙ r)
  ]

  -- Keeping twice is keeping what passes both tests.
  pub keep-keep :
      (p q r : A → Bool)
      → ((x : A) → (q x && p x) ≡ r x)
      → (xs : List A) → keep p (keep q xs) ≡ keep r xs
  keep-keep p q r h [] = refl
  keep-keep p q r h (x ∷ xs) = ground (arith, h x, keep-keep p q r h xs)

  pub keep_all : (p : A → Bool) (xs : List A) → ((x : A) → p x ≡ true) → keep p xs ≡ xs
  keep_all p [] h = refl
  keep_all p (x ∷ xs) h = rw (h x) (ap (λ l. x ∷ l) (keep_all p xs h))
