-- ===== src/Memory/DataCache/Write.antt =====
-- `write` of superscalar/core/memory/data/DataCache.hpp against a memory with no cache.
use cpu_cpp.Base.{
  ℕ, ◌+◌, ◌*◌, ◌/◌, ◌%◌, ◌<◌, ◌≡◌, refl, sym, ap, ◌∙◌, ◌≢◌, inl, inr, true, false, arith, leb, ◌==◌,
  if◌then◌else◌, ==_iff, Bool-cases, length, get_or, set, length-set, get_or-set_self,
  get_or-set_ne,
}
use mathlib.Core.Path.{subst}
use native.Mathlib.Nat.{mod-lt}
use cpu_cpp.Memory.DataCache.{
  Line, DataCache, line_at, blank_line, offset_of, index_of, is_hit, write_line, write, count_write,
}
use cpu_cpp.Memory.DataCache.Words.{block_rest}
use cpu_cpp.Memory.DataCache.View.{holds, view, IsValid}
use cpu_cpp.Memory.DataCache.Access.{ready, ready-IsReady, with_stats, with_stats-IsValid}

-- A line after a write of one word.
abbrev written : Line → ℕ → ℕ → Line
written line o word = record line { words = set line.words o word; dirty = true }

module _ (n w : ℕ) where
  index_in : (c : DataCache) (a : ℕ) → IsValid n w c → index_of n w a < length c.lines
  index_in c a v = omega (arith, v.sized, mod-lt (a / w) v.lines_pos)

  written-line :
      (c : DataCache) (a word : ℕ)
      → IsValid n w c
      → line_at n w (write_line n w c a word) (index_of n w a)
        ≡ written (line_at n w c (index_of n w a)) (offset_of n w a) word
  unfolding write_line
  written-line c a word v =
      get_or-set_self c.lines (index_of n w a) _ (blank_line n w) (index_in c a v)

  written-line_ne :
      (c : DataCache) (a word j : ℕ)
      → index_of n w a ≢ j
      → line_at n w (write_line n w c a word) j ≡ line_at n w c j
  unfolding write_line
  written-line_ne c a word j p = get_or-set_ne c.lines (index_of n w a) j _ (blank_line n w) p

  -- The same line, seen from a word `b` of it.
  written-line_of :
      (c : DataCache) (a word b : ℕ)
      → IsValid n w c
      → index_of n w a ≡ index_of n w b
      → line_at n w (write_line n w c a word) (index_of n w b)
        ≡ written (line_at n w c (index_of n w b)) (offset_of n w a) word
  written-line_of c a word b v e =
      subst
        (λ i.
          line_at n w (write_line n w c a word) i
          ≡ written (line_at n w c i) (offset_of n w a) word)
        e (written-line c a word v)

  -- Two words of one block differ in their offsets.
  offset_ne : (a b : ℕ) → 0 < w → a / w ≡ b / w → a ≢ b → a % w ≢ b % w
  offset_ne a b p e d q = d (
      sym (block_rest a w p)
      ∙ ap (λ k. k * w + a % w) e
      ∙ ap (λ k. b / w * w + k) q
      ∙ block_rest b w p)

  -- The block of a held word is that of its line.
  held_block :
      (c : DataCache) (i a : ℕ) → holds n w c i a ≡ true → (line_at n w c i).tag * n + i ≡ a / w
  held_block c i a h = ground arith

  -- What the reader sees of a word on the line, after the write.
  word_after :
      (c : DataCache) (a word b : ℕ)
      → IsValid n w c
      → holds n w c (index_of n w a) a ≡ true
      → index_of n w a ≡ index_of n w b
      → holds n w c (index_of n w b) b ≡ true
      → get_or
          (set (line_at n w c (index_of n w b)).words (offset_of n w a) word)
          (offset_of n w b)
          0
        ≡ (if a == b
            then word
            else get_or (line_at n w c (index_of n w b)).words (offset_of n w b) 0)
  word_after c a word b v h e g = elim (Bool-cases (a == b)) [
    | inl t ↦
        let t' : a ≡ b = (==_iff a b).0 t in
        rw t (
          ap
            (λ k.
              get_or (set (line_at n w c (index_of n w b)).words (offset_of n w k) word)
                (offset_of n w b) 0)
            t'
          ∙ get_or-set_self _ (offset_of n w b) word 0 (
              omega (
                arith,
                v.full (index_of n w b) (mod-lt (b / w) v.lines_pos),
                mod-lt b v.words_pos,
              )))
    | inr t ↦
        let block : a / w ≡ b / w =
          sym (held_block c (index_of n w a) a h)
          ∙ ap (λ i. (line_at n w c i).tag * n + i) e
          ∙ held_block c (index_of n w b) b g in
        rw t (
          get_or-set_ne _ (offset_of n w a) (offset_of n w b) word 0
            (offset_ne a b v.words_pos block (ground arith)))
  ]

  held_same :
      (c : DataCache) (a b : ℕ)
      → holds n w c (index_of n w a) a ≡ true
      → holds n w c (index_of n w b) b ≡ false
      → (a == b) ≡ false
  held_same c a b h g = elim (Bool-cases (a == b)) [
    | inl t ↦ cc (sym h ∙ ap (λ k. holds n w c (index_of n w k) k) ((==_iff a b).0 t) ∙ g)
    | inr t ↦ t
  ]

  -- The write changes the word `a` of the view and no other.
  written-view :
      (c : DataCache) (a word b : ℕ)
      → IsValid n w c
      → holds n w c (index_of n w a) a ≡ true
      → view n w (write_line n w c a word) b ≡ (if a == b then word else view n w c b)
  unfolding write_line
  written-view c a word b v h = elim (Bool-cases (index_of n w a == index_of n w b)) [
    | inl e ↦
        let e' : index_of n w a ≡ index_of n w b = (==_iff _ _).0 e in
        rw (written-line_of c a word b v e') (elim (Bool-cases (holds n w c (index_of n w b) b)) [
          | inl g ↦ rw g (word_after c a word b v h e' g)
          | inr g ↦ rw (g, held_same c a b h g)
        ])
    | inr e ↦ rw (written-line_ne c a word (index_of n w b) (ground arith), differ (ground arith))
  ]
    where
      differ : index_of n w a ≢ index_of n w b → (a == b) ≡ false
      differ d = elim (Bool-cases (a == b)) [
        | inl t ↦ absurd (d (ap (index_of n w) ((==_iff a b).0 t)))
        | inr t ↦ t
      ]

  written_clean :
      (c : DataCache) (a word i b : ℕ)
      → IsValid n w c
      → i < n
      → b < length c.memory
      → holds n w (write_line n w c a word) i b ≡ true
      → (line_at n w (write_line n w c a word) i).dirty ≡ false
      → get_or (line_at n w (write_line n w c a word) i).words (offset_of n w b) 0
        ≡ get_or c.memory b 0
  written_clean c a word i b v p q g d = elim (Bool-cases (index_of n w a == i)) [
    | inl e ↦ cc (
        sym (ap (λ (l : Line). l.dirty) (written-line c a word v))
        ∙ ap (λ k. (line_at n w (write_line n w c a word) k).dirty) ((==_iff _ i).0 e)
        ∙ d)
    | inr e ↦
        let same = written-line_ne c a word i (ground arith) in
        rw same (v.clean i b p q (rw same at g) (rw same at d))
  ]

  written-IsValid :
      (c : DataCache) (a word : ℕ) → IsValid n w c → IsValid n w (write_line n w c a word)
  unfolding write_line
  written-IsValid c a word v = record {
    lines_pos = v.lines_pos;
    words_pos = v.words_pos;
    sized = length-set c.lines (index_of n w a) _ ∙ v.sized;
    small = v.small;
    full = λ i p. elim (Bool-cases (index_of n w a == i)) [
      | inl e ↦
          subst (λ k. length (line_at n w (write_line n w c a word) k).words ≡ w) ((==_iff _ i).0 e)
            (ap (λ (l : Line). length l.words) (written-line c a word v)
              ∙ length-set _ (offset_of n w a) word
              ∙ v.full (index_of n w a) (mod-lt (a / w) v.lines_pos))
      | inr e ↦ rw (written-line_ne c a word i (ground arith)) (v.full i p)
    ];
    clean = λ i b p q g d. written_clean c a word i b v p q g d;
  }

  -- From a valid cache, a write in range changes what the reader sees at its word and at no
  -- other, and keeps the cache valid.
  pub write-view :
      (c : DataCache) (byte_address word : ℕ)
      → IsValid n w c
      → byte_address / 4 < length c.memory
      → (let (done, c') = write n w c byte_address word in
          (done ≡ true)
          × IsValid n w c'
          × (length c'.memory ≡ length c.memory)
          × ((b : ℕ)
              → b < length c.memory
              → view n w c' b ≡ (if byte_address / 4 == b then word else view n w c b)))
  unfolding write
  write-view c byte_address word v p =
      let a = byte_address / 4 in
      let c1 = with_stats c (count_write (is_hit n w c a) c.stats) in
      let r = ready-IsReady n w c1 a (with_stats-IsValid n w c _ v) p in
      rw (in_range p) (
        refl,
        written-IsValid (ready n w c1 a) a word r.valid,
        r.same_length,
        λ b q.
            written-view (ready n w c1 a) a word b r.valid r.held
            ∙ ap (λ z. if a == b then word else z) (r.same_view b q),
      )
    where
      in_range :
          byte_address / 4 < length c.memory → leb (length c.memory) (byte_address / 4) ≡ false
      in_range p = ground arith
