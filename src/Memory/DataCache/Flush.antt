-- ===== src/Memory/DataCache/Flush.antt =====
-- `flush` of superscalar/core/memory/data/DataCache.hpp: afterwards the memory itself is what a
-- reader saw through the cache.
use cpu_cpp.Base.{
  ℕ, zero, suc, ◌+◌, ◌*◌, ◌/◌, ◌≤◌, ◌<◌, ◌≡◌, refl, sym, ap, ◌∙◌, ◌≢◌, inl, inr, Bool, true, false,
  ◌&&◌, arith, ◌==◌, if◌then◌else◌, ==_iff, Bool-cases, length, get_or, length-set, get_or-set_self,
  get_or-set_ne,
}
use mathlib.Core.Path.{subst}
use native.Mathlib.Nat.{mod-lt}
use cpu_cpp.Memory.DataCache.{
  DataCache, line_at, blank_line, offset_of, index_of, writeback_line, flush_from, flush,
}
use cpu_cpp.Memory.DataCache.View.{
  holds, view, IsValid, holds_line, writeback-memory, length-writeback,
}

module _ (n w : ℕ) where
  -- Nothing is left to write back from line `i`.
  abbrev pub Settled : DataCache → ℕ → Type 0
  Settled c i = ((line_at n w c i).valid && (line_at n w c i).dirty) ≡ false

  writeback-line :
      (c : DataCache) (i : ℕ)
      → i < length c.lines
      → line_at n w (writeback_line n w c i) i ≡ record (line_at n w c i) { dirty = false }
  unfolding writeback_line
  writeback-line c i p = get_or-set_self c.lines i _ (blank_line n w) p

  writeback-line_ne :
      (c : DataCache) (i j : ℕ) → i ≢ j → line_at n w (writeback_line n w c i) j ≡ line_at n w c j
  unfolding writeback_line
  writeback-line_ne c i j p = get_or-set_ne c.lines i j _ (blank_line n w) p

  writeback_sized : (c : DataCache) (i : ℕ) → length (writeback_line n w c i).lines ≡ length c.lines
  unfolding writeback_line
  writeback_sized c i = length-set c.lines i _

  -- A valid line that does not hold the word is not written over it.
  other_block :
      (c : DataCache) (i a : ℕ)
      → (line_at n w c i).valid ≡ true
      → holds n w c i a ≡ false
      → ((line_at n w c i).tag * n + i == a / w) ≡ false
  other_block c i a t h = ground arith

  unheld : (c : DataCache) (i a : ℕ) → i < n → i ≢ index_of n w a → holds n w c i a ≡ false
  unheld c i a p d = elim (Bool-cases (holds n w c i a)) [
    | inl h ↦ absurd (d (holds_line n w c i a p h))
    | inr h ↦ h
  ]

  -- Words that the line does not hold stay as they are in the memory.
  memory_kept :
      (c : DataCache) (i a : ℕ)
      → 0 < w
      → a < length c.memory
      → (line_at n w c i).valid ≡ true
      → holds n w c i a ≡ false
      → get_or (writeback_line n w c i).memory a 0 ≡ get_or c.memory a 0
  memory_kept c i a p q t h = writeback-memory n w c i a p q ∙ rw (other_block c i a t h)

  clean_line :
      (c : DataCache) (i j : ℕ)
      → i < length c.lines
      → i ≡ j
      → line_at n w (writeback_line n w c i) j ≡ record (line_at n w c j) { dirty = false }
  clean_line c i j p e =
      subst
        (λ k. line_at n w (writeback_line n w c i) k ≡ record (line_at n w c k) { dirty = false }) e
        (writeback-line c i p)

  writeback-view :
      (c : DataCache) (i a : ℕ)
      → IsValid n w c
      → i < n
      → a < length c.memory
      → (line_at n w c i).valid ≡ true
      → view n w (writeback_line n w c i) a ≡ view n w c a
  writeback-view c i a v p q t = elim (Bool-cases (i == index_of n w a)) [
    | inl e ↦
        let e' : i ≡ index_of n w a = (==_iff i _).0 e in
        rw (clean_line c i (index_of n w a) (omega (arith, v.sized)) e')
          (elim (Bool-cases (holds n w c (index_of n w a) a)) [
            | inl g ↦ rw g
            | inr g ↦ rw g (memory_kept c i a v.words_pos q t (ap (λ k. holds n w c k a) e' ∙ g))
          ])
    | inr e ↦ rw (
      writeback-line_ne c i (index_of n w a) (ground arith),
      memory_kept c i a v.words_pos q t (unheld c i a p (ground arith)),
    )
  ]

  writeback_clean :
      (c : DataCache) (i j b : ℕ)
      → IsValid n w c
      → i < n
      → j < n
      → b < length c.memory
      → (line_at n w c i).valid ≡ true
      → holds n w (writeback_line n w c i) j b ≡ true
      → (line_at n w (writeback_line n w c i) j).dirty ≡ false
      → get_or (line_at n w (writeback_line n w c i) j).words (offset_of n w b) 0
        ≡ get_or (writeback_line n w c i).memory b 0
  writeback_clean c i j b v p q r t g d = elim (Bool-cases (i == j)) [
    | inl e ↦
        let e' : i ≡ j = (==_iff i j).0 e in
        let line = clean_line c i j (omega (arith, v.sized)) e' in
        let g' : holds n w c i b ≡ true = ap (λ k. holds n w c k b) e' ∙ (rw line at g) in
        rw line (
          ap (λ k. get_or (line_at n w c k).words (offset_of n w b) 0) (sym e')
          ∙ sym (writeback-memory n w c i b v.words_pos r ∙ rw (block g')))
    | inr e ↦
        let same = writeback-line_ne c i j (ground arith) in
        let g' : holds n w c j b ≡ true = rw same at g in
        let away : i ≢ index_of n w b = λ x. differ e (x ∙ sym (holds_line n w c j b q g')) in
        rw (same, memory_kept c i b v.words_pos r t (unheld c i b p away))
          (v.clean j b q r g' (rw same at d))
  ]
    where
      block : holds n w c i b ≡ true → ((line_at n w c i).tag * n + i == b / w) ≡ true
      block h = ground arith

      differ : (i == j) ≡ false → i ≢ j
      differ e x = ground arith

  writeback-IsValid :
      (c : DataCache) (i : ℕ)
      → IsValid n w c
      → i < n
      → (line_at n w c i).valid ≡ true
      → IsValid n w (writeback_line n w c i)
  writeback-IsValid c i v p t = record {
    lines_pos = v.lines_pos;
    words_pos = v.words_pos;
    sized = writeback_sized c i ∙ v.sized;
    small = omega (arith, v.small, length-writeback n w c i);
    full = λ j q. elim (Bool-cases (i == j)) [
      | inl e ↦ rw (clean_line c i j (omega (arith, v.sized)) ((==_iff i j).0 e)) (v.full j q)
      | inr e ↦ rw (writeback-line_ne c i j (ground arith)) (v.full j q)
    ];
    clean = λ j b q r g d.
        writeback_clean c i j b v p q (omega (arith, length-writeback n w c i)) t g d;
  }

  -- One round of the loop.
  round : DataCache → ℕ → DataCache
  round c i =
      if (line_at n w c i).valid && (line_at n w c i).dirty then writeback_line n w c i else c

  -- What a part of the flush leaves: the view, and settled lines below `k`.
  record Flushed (c : DataCache) (k : ℕ) (c' : DataCache) : Type 0 where
    valid : IsValid n w c'
    same_length : length c'.memory ≡ length c.memory
    same_view : (a : ℕ) → a < length c.memory → view n w c' a ≡ view n w c a
    settled_below : (i : ℕ) → i < k → Settled c' i

  Flushed-trans :
      (c c' c'' : DataCache) (k m : ℕ) → Flushed c k c' → Flushed c' m c'' → Flushed c m c''
  Flushed-trans c c' c'' k m f g = record {
    valid = g.valid;
    same_length = g.same_length ∙ f.same_length;
    same_view = λ a p. g.same_view a (omega (arith, f.same_length)) ∙ f.same_view a p;
    settled_below = g.settled_below;
  }

  round-Flushed :
      (c : DataCache) (i : ℕ)
      → IsValid n w c
      → i < n
      → ((j : ℕ) → j < i → Settled c j)
      → Flushed c (i + 1) (round c i)
  unfolding round
  round-Flushed c i v p s = elim (Bool-cases ((line_at n w c i).valid && (line_at n w c i).dirty)) [
    | inl e ↦
        let t : (line_at n w c i).valid ≡ true = ground arith in
        rw e (record {
          valid = writeback-IsValid c i v p t;
          same_length = length-writeback n w c i;
          same_view = λ a q. writeback-view c i a v p q t;
          settled_below = λ j q. elim (Bool-cases (i == j)) [
            | inl g ↦
                rw (clean_line c i j (omega (arith, v.sized)) ((==_iff i j).0 g))
                  (no_dirt (line_at n w c j).valid)
            | inr g ↦ rw (writeback-line_ne c i j (ground arith)) (s j (ground arith))
          ];
        })
    | inr e ↦ rw e (record {
      valid = v;
      same_length = refl;
      same_view = λ a q. refl;
      settled_below = λ j q. elim (Bool-cases (i == j)) [
        | inl g ↦ subst (Settled c) ((==_iff i j).0 g) e
        | inr g ↦ s j (ground arith)
      ];
    })
  ]
    where
      no_dirt : (b : Bool) → (b && false) ≡ false
      no_dirt true = refl
      no_dirt false = refl

  flush_from-Flushed :
      (k i m : ℕ) (c : DataCache)
      → IsValid n w c
      → i + k ≡ m
      → m ≤ n
      → ((j : ℕ) → j < i → Settled c j)
      → Flushed c m (flush_from n w k i c)
  unfolding flush_from round
  flush_from-Flushed zero i m c v e p s = record {
    valid = v;
    same_length = refl;
    same_view = λ a q. refl;
    settled_below = λ j q. s j (omega arith);
  }
  flush_from-Flushed (suc k) i m c v e p s =
      let f = round-Flushed c i v (omega arith) s in
      Flushed-trans c (round c i) _ (i + 1) m f
        (flush_from-Flushed k (i + 1) m (round c i) f.valid (omega arith) p f.settled_below)

  -- A settled line shows what the memory has.
  Settled-view :
      (c : DataCache) (a : ℕ)
      → IsValid n w c
      → a < length c.memory
      → Settled c (index_of n w a)
      → get_or c.memory a 0 ≡ view n w c a
  Settled-view c a v p s = elim (Bool-cases (holds n w c (index_of n w a) a)) [
    | inl h ↦
        rw h (sym (v.clean (index_of n w a) a (mod-lt (a / w) v.lines_pos) p h (ground arith)))
    | inr h ↦ rw h
  ]

  -- After a flush of a valid cache the cache is valid, the memory has every word that the reader
  -- saw, and the reader sees them still.
  pub flush-view :
      (c : DataCache)
      → IsValid n w c
      → IsValid n w (flush n w c)
        × ((a : ℕ)
            → a < length c.memory
            → (get_or (flush n w c).memory a 0 ≡ view n w c a)
              × (view n w (flush n w c) a ≡ view n w c a))
  unfolding flush
  flush-view c v =
      let f = flush_from-Flushed n 0 n c v (omega arith) (omega arith) (λ j q. elim q [ ]) in
      (
        f.valid,
        λ a p. (
          Settled-view (flush_from n w n 0 c) a f.valid (omega (arith, f.same_length))
                (f.settled_below (index_of n w a) (mod-lt (a / w) v.lines_pos))
              ∙ f.same_view a p,
          f.same_view a p,
        ),
      )
