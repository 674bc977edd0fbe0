-- ===== src/Memory/DataCache/View.antt =====
-- The memory as a reader sees it through superscalar/core/memory/data/DataCache.hpp, and the
-- invariant that clean lines agree with the memory.
use cpu_cpp.Base.{
  ℕ, ◌+◌, ◌-◌, ◌*◌, ◌/◌, ◌%◌, ◌^◌, ◌≤◌, ◌<◌, ◌≡◌, sym, ap, ◌∙◌, inl, inr, Bool, true, false, ◌&&◌,
  List, arith, ltb, leb, ◌==◌, if◌then◌else◌, ==_iff, Bool-cases, length, get_or,
}
use native.Mathlib.Nat.{div-div-eq-div-mul, div-le_self, mod-eq_of_lt}
use cpu_cpp.Memory.DataCache.{
  DataCache, line_at, offset_of, index_of, tag_of, is_hit, writeback_line,
}
use cpu_cpp.Memory.DataCache.Words.{
  block_rest, tag_test, block_test, line_of_block, length-store_words, get-store_words,
}

module _ (n w : ℕ) where
  -- Line `i` is valid and holds the block of word `a`.
  abbrev pub holds : DataCache → ℕ → ℕ → Bool
  holds c i a = (line_at n w c i).valid && (line_at n w c i).tag * n + i == a / w

  -- What a read of word `a` is to return.
  abbrev pub view : DataCache → ℕ → ℕ
  view c a =
      if holds c (index_of n w a) a
      then get_or (line_at n w c (index_of n w a)).words (offset_of n w a) 0
      else get_or c.memory a 0

  pub record IsValid (c : DataCache) : Type 0 where
    pub lines_pos : 0 < n
    pub words_pos : 0 < w
    pub sized : length c.lines ≡ n
    pub small : length c.memory ≤ 2 ^ 32
    pub full : (i : ℕ) → i < n → length (line_at n w c i).words ≡ w
    pub clean :
        (i a : ℕ)
        → i < n
        → a < length c.memory
        → holds c i a ≡ true
        → (line_at n w c i).dirty ≡ false
        → get_or (line_at n w c i).words (offset_of n w a) 0 ≡ get_or c.memory a 0

  pub tag_of-small :
      (c : DataCache) (a : ℕ) → IsValid c → a < length c.memory → tag_of n w a ≡ a / w / n
  tag_of-small c a v p =
      mod-eq_of_lt (omega (arith, v.small, div-le_self a (w * n))) ∙ sym (div-div-eq-div-mul a w n)

  -- The test that the code makes is the test for the block.
  pub is_hit-holds :
      (c : DataCache) (a : ℕ)
      → IsValid c
      → a < length c.memory
      → is_hit n w c a ≡ holds c (index_of n w a) a
  is_hit-holds c a v p = rw (tag_of-small c a v p) (
      ap (λ b. (line_at n w c (index_of n w a)).valid && b)
        (tag_test (line_at n w c (index_of n w a)).tag (a / w) n v.lines_pos))

  pub holds_line : (c : DataCache) (i a : ℕ) → i < n → holds c i a ≡ true → i ≡ index_of n w a
  holds_line c i a p h =
      let e : (line_at n w c i).tag * n + i ≡ a / w = ground arith in
      sym (line_of_block (line_at n w c i).tag i n p) ∙ ap (λ q. q % n) e

  pub writeback-memory :
      (c : DataCache) (i a : ℕ)
      → 0 < w
      → a < length c.memory
      → get_or (writeback_line n w c i).memory a 0 ≡ (
          if (line_at n w c i).tag * n + i == a / w
          then get_or (line_at n w c i).words (offset_of n w a) 0
          else get_or c.memory a 0)
  unfolding writeback_line
  writeback-memory c i a p q =
      get-store_words w 0 (((line_at n w c i).tag * n + i) * w) (line_at n w c i).words c.memory a q
      ∙ covered ((line_at n w c i).tag * n + i) (line_at n w c i).words (get_or c.memory a 0)
    where
      rest : (b : ℕ) → b ≡ a / w → a - b * w ≡ a % w
      rest b e = rw e (let r = block_rest a w p in omega arith)

      covered :
          (b : ℕ) (words : List ℕ) (z : ℕ)
          → (if leb (b * w + 0) a && ltb a (b * w + 0 + w) then get_or words (a - b * w) 0 else z)
            ≡ (if b == a / w then get_or words (a % w) 0 else z)
      covered b words z = rw (block_test b a w p) (elim (Bool-cases (b == a / w)) [
        | inl e ↦ rw e (ap (λ k. get_or words k 0) (rest b ((==_iff b (a / w)).0 e)))
        | inr e ↦ rw e
      ])

  pub length-writeback :
      (c : DataCache) (i : ℕ) → length (writeback_line n w c i).memory ≡ length c.memory
  unfolding writeback_line
  length-writeback c i = length-store_words w 0 _ _ c.memory
