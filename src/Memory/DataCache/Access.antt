-- ===== src/Memory/DataCache/Access.antt =====
-- `read` of superscalar/core/memory/data/DataCache.hpp against a memory with no cache.
use cpu_cpp.Base.{
  ℕ, ◌/◌, ◌<◌, ◌≡◌, refl, sym, ap, ◌∙◌, inl, inr, true, false, some, arith, leb, if◌then◌else◌,
  Bool-cases, length, get_or,
}
use cpu_cpp.Memory.DataCache.{
  DataCache, line_at, offset_of, index_of, is_hit, read, count_read, Stats,
}
use cpu_cpp.Memory.DataCache.View.{holds, view, IsValid, is_hit-holds}
use cpu_cpp.Memory.DataCache.Refill.{refilled, refilled-view, refilled-IsValid, refilled-length}

-- Counting changes no line and no word.
abbrev pub with_stats : DataCache → Stats → DataCache
with_stats c s = record c { stats = s }

module _ (n w : ℕ) where
  -- The state after the test of `read` and `write`: the line of word `a` holds it.
  abbrev pub ready : DataCache → ℕ → DataCache
  ready c a = if is_hit n w c a then c else refilled n w c a

  pub record IsReady (c : DataCache) (a : ℕ) (c' : DataCache) : Type 0 where
    pub valid : IsValid n w c'
    pub held : holds n w c' (index_of n w a) a ≡ true
    pub same_length : length c'.memory ≡ length c.memory
    pub same_view : (b : ℕ) → b < length c.memory → view n w c' b ≡ view n w c b

  pub ready-IsReady :
      (c : DataCache) (a : ℕ) → IsValid n w c → a < length c.memory → IsReady c a (ready c a)
  ready-IsReady c a v p = elim (Bool-cases (is_hit n w c a)) [
    | inl e ↦ rw e (record {
      valid = v;
      held = sym (is_hit-holds n w c a v p) ∙ e;
      same_length = refl;
      same_view = λ b q. refl;
    })
    | inr e ↦
        let (valid, held) = refilled-IsValid n w c a v p in
        rw e (record {
          valid = valid;
          held = held;
          same_length = refilled-length n w c a;
          same_view = λ b q. refilled-view n w c a b v p q;
        })
  ]

  pub with_stats-IsValid :
      (c : DataCache) (s : Stats) → IsValid n w c → IsValid n w (with_stats c s)
  with_stats-IsValid c s v = record {
    lines_pos = v.lines_pos;
    words_pos = v.words_pos;
    sized = v.sized;
    small = v.small;
    full = v.full;
    clean = v.clean;
  }

  -- From a valid cache, a read of a word in range returns the word that the reader sees, leaves
  -- the memory as the reader sees it, and keeps the cache valid.
  pub read-view :
      (c : DataCache) (byte_address : ℕ)
      → IsValid n w c
      → byte_address / 4 < length c.memory
      → (let (word, c') = read n w c byte_address in
          (word ≡ some (view n w c (byte_address / 4)))
          × IsValid n w c'
          × (length c'.memory ≡ length c.memory)
          × ((b : ℕ) → b < length c.memory → view n w c' b ≡ view n w c b))
  unfolding read
  read-view c byte_address v p =
      let a = byte_address / 4 in
      let c1 = with_stats c (count_read (is_hit n w c a) c.stats) in
      let r = ready-IsReady c1 a (with_stats-IsValid c _ v) p in
      rw (in_range p) (
        ap some (word_at (ready c1 a) r.held ∙ r.same_view a p),
        r.valid,
        r.same_length,
        r.same_view,
      )
    where
      word_at :
          (c' : DataCache)
          → holds n w c' (index_of n w (byte_address / 4)) (byte_address / 4) ≡ true
          → get_or
              (line_at n w c' (index_of n w (byte_address / 4))).words
              (offset_of n w (byte_address / 4))
              0
            ≡ view n w c' (byte_address / 4)
      word_at c' h = rw h

      in_range :
          byte_address / 4 < length c.memory → leb (length c.memory) (byte_address / 4) ≡ false
      in_range p = ground arith
