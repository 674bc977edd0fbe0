-- ===== src/Memory/DataCache/Refill.antt =====
-- `refill_line` with its eviction, in superscalar/core/memory/data/DataCache.hpp: the line changes,
-- the memory as a reader sees it does not.
use cpu_cpp.Base.{
  ℕ, ◌+◌, ◌*◌, ◌/◌, ◌%◌, ◌<◌, ◌≡◌, refl, sym, ap, ◌∙◌, ◌≢◌, inl, inr, true, false, ◌&&◌, arith,
  ◌==◌, if◌then◌else◌, ==_iff, ==_refl, Bool-cases, length, get_or, length-set, get_or-set_self,
  get_or-set_ne,
}
use mathlib.Core.Path.{subst}
use native.Mathlib.Nat.{mod-lt, add-zero}
use cpu_cpp.Memory.DataCache.{
  Line, DataCache, count_eviction, line_at, blank_line, offset_of, index_of, tag_of, writeback_line,
  evict, refill_line, load_words,
}
use cpu_cpp.Memory.DataCache.Words.{block_rest, get-load_words, length-load_words}
use cpu_cpp.Memory.DataCache.View.{
  holds, view, IsValid, tag_of-small, holds_line, writeback-memory, length-writeback,
}

module _ (n w : ℕ) where
  index_of-lt : (a : ℕ) → 0 < n → index_of n w a < n
  index_of-lt a p = mod-lt (a / w) p

  pub evict-memory :
      (c : DataCache) (i a : ℕ)
      → IsValid n w c
      → i < n
      → a < length c.memory
      → get_or (evict n w c i).memory a 0 ≡ (
          if holds n w c i a
          then get_or (line_at n w c i).words (offset_of n w a) 0
          else get_or c.memory a 0)
  unfolding evict
  evict-memory c i a v p q = elim (Bool-cases (line_at n w c i).valid) [
    | inr e ↦ rw e
    | inl e ↦ elim (Bool-cases (line_at n w c i).dirty) [
      | inl d ↦ rw (e, d) (writeback-memory n w (count_eviction c) i a v.words_pos q)
      | inr d ↦ elim (Bool-cases ((line_at n w c i).tag * n + i == a / w)) [
        | inl t ↦ rw (e, d, t) (sym (v.clean i a p q (rw (e, t)) d))
        | inr t ↦ rw (e, d, t)
      ]
    ]
  ]

  pub evict-line :
      (c : DataCache) (i j : ℕ) → i ≢ j → line_at n w (evict n w c i) j ≡ line_at n w c j
  unfolding evict writeback_line
  evict-line c i j p = elim (Bool-cases (line_at n w c i).valid) [
    | inr e ↦ rw e
    | inl e ↦ elim (Bool-cases (line_at n w c i).dirty) [
      | inl d ↦ rw (e, d) (get_or-set_ne c.lines i j _ (blank_line n w) p)
      | inr d ↦ rw (e, d)
    ]
  ]

  pub evict_sizes :
      (c : DataCache) (i : ℕ)
      → (length (evict n w c i).memory ≡ length c.memory)
        × (length (evict n w c i).lines ≡ length c.lines)
  unfolding evict writeback_line
  evict_sizes c i = elim (Bool-cases (line_at n w c i).valid) [
    | inr e ↦ rw e (refl, refl)
    | inl e ↦ elim (Bool-cases (line_at n w c i).dirty) [
      | inl d ↦ rw (e, d) (length-writeback n w (count_eviction c) i, length-set c.lines i _)
      | inr d ↦ rw (e, d) (refl, refl)
    ]
  ]

  -- The line that `refill_line` installs.
  abbrev fresh_line : DataCache → ℕ → ℕ → Line
  fresh_line c i a = record {
    valid = true;
    dirty = false;
    tag = tag_of n w a;
    words = load_words w 0 (a / w * w) (evict n w c i).memory;
  }

  abbrev pub refilled : DataCache → ℕ → DataCache
  refilled c a = refill_line n w c (index_of n w a) a (tag_of n w a)

  refilled-line :
      (c : DataCache) (a : ℕ)
      → IsValid n w c
      → line_at n w (refilled c a) (index_of n w a) ≡ fresh_line c (index_of n w a) a
  unfolding refill_line
  refilled-line c a v =
      get_or-set_self (evict n w c (index_of n w a)).lines (index_of n w a) _ (blank_line n w)
        (omega (arith, (evict_sizes c (index_of n w a)).1, v.sized, index_of-lt a v.lines_pos))

  refilled-line_ne :
      (c : DataCache) (a j : ℕ)
      → index_of n w a ≢ j
      → line_at n w (refilled c a) j ≡ line_at n w c j
  unfolding refill_line
  refilled-line_ne c a j p =
      get_or-set_ne (evict n w c (index_of n w a)).lines (index_of n w a) j _ (blank_line n w) p
      ∙ evict-line c (index_of n w a) j p

  pub refilled-length : (c : DataCache) (a : ℕ) → length (refilled c a).memory ≡ length c.memory
  unfolding refill_line
  refilled-length c a = (evict_sizes c (index_of n w a)).0

  -- The memory under the refilled line.
  refilled-memory :
      (c : DataCache) (a b : ℕ)
      → IsValid n w c
      → b < length c.memory
      → index_of n w a ≡ index_of n w b
      → get_or (refilled c a).memory b 0 ≡ view n w c b
  unfolding refill_line
  refilled-memory c a b v p e =
      rw e (evict-memory c (index_of n w b) b v (index_of-lt b v.lines_pos) p)

  refilled-memory_ne :
      (c : DataCache) (a b : ℕ)
      → IsValid n w c
      → b < length c.memory
      → index_of n w a ≢ index_of n w b
      → get_or (refilled c a).memory b 0 ≡ get_or c.memory b 0
  unfolding refill_line
  refilled-memory_ne c a b v p e = elim (Bool-cases (holds n w c (index_of n w a) b)) [
    | inl h ↦ absurd (e (holds_line n w c (index_of n w a) b (index_of-lt a v.lines_pos) h))
    | inr h ↦ evict-memory c (index_of n w a) b v (index_of-lt a v.lines_pos) p ∙ rw h
  ]

  -- The fresh line holds exactly the block of `a`, with the words of the memory.
  fresh-holds :
      (c : DataCache) (a b : ℕ)
      → IsValid n w c
      → a < length c.memory
      → index_of n w a ≡ index_of n w b
      → holds n w (refilled c a) (index_of n w b) b ≡ (a / w == b / w)
  fresh-holds c a b v p e =
      subst (λ i. holds n w (refilled c a) i b ≡ (a / w == b / w)) e
        (ap (λ (l : Line). l.valid && l.tag * n + index_of n w a == b / w) (refilled-line c a v)
          ∙ ap (λ q. q == b / w)
              (ap (λ t. t * n + index_of n w a) (tag_of-small n w c a v p)
                ∙ block_rest (a / w) n v.lines_pos))

  fresh-words :
      (c : DataCache) (a b : ℕ)
      → IsValid n w c
      → a / w ≡ b / w
      → get_or (line_at n w (refilled c a) (index_of n w b)).words (offset_of n w b) 0
        ≡ get_or (refilled c a).memory b 0
  unfolding refill_line
  fresh-words c a b v e =
      subst
        (λ i.
          get_or (line_at n w (refilled c a) i).words (offset_of n w b) 0
          ≡ get_or (refilled c a).memory b 0)
        (ap (λ q. q % n) e)
        (ap (λ (l : Line). get_or l.words (offset_of n w b) 0) (refilled-line c a v)
          ∙ get-load_words w 0 (a / w * w) (evict n w c (index_of n w a)).memory (b % w)
              (mod-lt b v.words_pos)
          ∙ ap (λ k. get_or (evict n w c (index_of n w a)).memory k 0)
              (ap (λ q. q * w + 0 + b % w) e ∙ rw add-zero (block_rest b w v.words_pos)))

  -- A refill leaves the memory as a reader sees it.
  pub refilled-view :
      (c : DataCache) (a b : ℕ)
      → IsValid n w c
      → a < length c.memory
      → b < length c.memory
      → view n w (refilled c a) b ≡ view n w c b
  refilled-view c a b v p q = elim (Bool-cases (index_of n w a == index_of n w b)) [
    | inl e ↦
        let e' : index_of n w a ≡ index_of n w b = (==_iff _ _).0 e in
        elim (Bool-cases (a / w == b / w)) [
          | inl t ↦
              rw (fresh-holds c a b v p e', t)
                (fresh-words c a b v ((==_iff (a / w) (b / w)).0 t) ∙ refilled-memory c a b v q e')
          | inr t ↦ rw (fresh-holds c a b v p e', t) (refilled-memory c a b v q e')
        ]
    | inr e ↦
        let e' : index_of n w a ≢ index_of n w b = ground arith in
        rw (refilled-line_ne c a (index_of n w b) e', refilled-memory_ne c a b v q e')
  ]

  refilled_sized : (c : DataCache) (a : ℕ) → length (refilled c a).lines ≡ length c.lines
  unfolding refill_line
  refilled_sized c a = length-set _ (index_of n w a) _ ∙ (evict_sizes c (index_of n w a)).1

  refilled_full :
      (c : DataCache) (a : ℕ)
      → IsValid n w c
      → (i : ℕ) → i < n
      → length (line_at n w (refilled c a) i).words ≡ w
  refilled_full c a v i p = elim (Bool-cases (index_of n w a == i)) [
    | inl e ↦
        subst (λ k. length (line_at n w (refilled c a) k).words ≡ w) ((==_iff _ i).0 e)
          (ap (λ (l : Line). length l.words) (refilled-line c a v)
            ∙ length-load_words w 0 (a / w * w) (evict n w c (index_of n w a)).memory)
    | inr e ↦ rw (refilled-line_ne c a i (ground arith)) (v.full i p)
  ]

  refilled_clean :
      (c : DataCache) (a b : ℕ)
      → IsValid n w c
      → a < length c.memory
      → b < length c.memory
      → holds n w (refilled c a) (index_of n w b) b ≡ true
      → (line_at n w (refilled c a) (index_of n w b)).dirty ≡ false
      → get_or (line_at n w (refilled c a) (index_of n w b)).words (offset_of n w b) 0
        ≡ get_or (refilled c a).memory b 0
  refilled_clean c a b v p q h d = elim (Bool-cases (index_of n w a == index_of n w b)) [
    | inl e ↦
        let e' : index_of n w a ≡ index_of n w b = (==_iff _ _).0 e in
        fresh-words c a b v ((==_iff (a / w) (b / w)).0 (sym (fresh-holds c a b v p e') ∙ h))
    | inr e ↦
        let e' : index_of n w a ≢ index_of n w b = ground arith in
        let same = refilled-line_ne c a (index_of n w b) e' in
        rw (same, refilled-memory_ne c a b v q e')
          (v.clean (index_of n w b) b (index_of-lt b v.lines_pos) q (rw same at h) (rw same at d))
  ]

  -- A refill keeps the invariant, and its line holds the word.
  pub refilled-IsValid :
      (c : DataCache) (a : ℕ)
      → IsValid n w c
      → a < length c.memory
      → IsValid n w (refilled c a) × (holds n w (refilled c a) (index_of n w a) a ≡ true)
  refilled-IsValid c a v p = (
    record {
      lines_pos = v.lines_pos;
      words_pos = v.words_pos;
      sized = refilled_sized c a ∙ v.sized;
      small = omega (arith, v.small, refilled-length c a);
      full = refilled_full c a v;
      clean = λ i b p' q h d.
          let at : index_of n w b ≡ i = sym (holds_line n w (refilled c a) i b p' h) in
          let q' : b < length c.memory = omega (arith, refilled-length c a) in
          subst
            (λ k.
              holds n w (refilled c a) k b ≡ true
              → (line_at n w (refilled c a) k).dirty ≡ false
              → get_or (line_at n w (refilled c a) k).words (offset_of n w b) 0
                ≡ get_or (refilled c a).memory b 0)
            at (refilled_clean c a b v p q') h d;
    },
    fresh-holds c a a v p refl ∙ ==_refl (a / w),
  )
