-- ===== src/Memory/DataCache.antt =====
-- superscalar/core/memory/data/DataCache.hpp: a direct-mapped, write-back, write-allocate cache over
-- the data memory. The template's `NumLines` and `WordsPerLine` are the section's parameters,
-- `DataMemoryWords` is the length of the memory. The counters of `Stats` are kept; `hit_rate` and
-- `miss_rate`, which are floating-point, are not.
pub mod Words
pub mod View
pub mod Refill
pub mod Access
pub mod Write
pub mod Flush
pub mod Transparent
use cpu_cpp.Base.{
  ℕ, zero, suc, ◌+◌, ◌*◌, ◌/◌, ◌%◌, ◌^◌, Bool, true, false, not, ◌&&◌, Option, none, some, List, [],
  ◌∷◌, ltb, leb, ◌==◌, if◌then◌else◌, length, get_or, set, replicate,
}
use cpu_cpp.Memory.DataMemory
use cpu_cpp.Memory.DataMemory.{DataMemory}

pub record Line : Type 0 where
  pub valid : Bool
  pub dirty : Bool
  pub tag : ℕ
  pub words : List ℕ

pub record Stats : Type 0 where
  pub reads : ℕ
  pub read_hits : ℕ
  pub read_misses : ℕ
  pub writes : ℕ
  pub write_hits : ℕ
  pub write_misses : ℕ
  pub evictions : ℕ
  pub writebacks : ℕ

-- The cache with the memory that its reference leads to.
pub record DataCache : Type 0 where
  pub memory : DataMemory
  pub lines : List Line
  pub stats : Stats

abbrev pub no_stats : Stats
no_stats = record {
  reads = 0;
  read_hits = 0;
  read_misses = 0;
  writes = 0;
  write_hits = 0;
  write_misses = 0;
  evictions = 0;
  writebacks = 0;
}

abbrev pub total_accesses : Stats → ℕ
total_accesses s = s.reads + s.writes

abbrev pub total_hits : Stats → ℕ
total_hits s = s.read_hits + s.write_hits

abbrev pub total_misses : Stats → ℕ
total_misses s = s.read_misses + s.write_misses

-- `++stats_.evictions`
abbrev pub count_eviction : DataCache → DataCache
count_eviction c = record c { stats = record (c.stats) { evictions = c.stats.evictions + 1 } }

-- The loop of `writeback_line`: `n` words of the line from word `w` on go to their places.
unfoldable pub store_words : ℕ → ℕ → ℕ → List ℕ → DataMemory → DataMemory
store_words zero w base words memory = memory
store_words (suc n) w base words memory = store_words n (w + 1) base words (
    if ltb (base + w) (length memory)
    then DataMemory.write_word memory (base + w) (get_or words w 0)
    else memory)

-- The loop of `refill_line`: `n` words of the memory from word `w` of the line on.
unfoldable pub load_words : ℕ → ℕ → ℕ → DataMemory → List ℕ
load_words zero w base memory = []
load_words (suc n) w base memory =
    (if ltb (base + w) (length memory) then DataMemory.read_word memory (base + w) else 0)
    ∷ load_words n (w + 1) base memory

-- The counters that a read and a write move, by whether it hits.
abbrev pub count_read : Bool → Stats → Stats
count_read hit s =
    if hit
    then record s { reads = s.reads + 1; read_hits = s.read_hits + 1 }
    else record s { reads = s.reads + 1; read_misses = s.read_misses + 1 }

abbrev pub count_write : Bool → Stats → Stats
count_write hit s =
    if hit
    then record s { writes = s.writes + 1; write_hits = s.write_hits + 1 }
    else record s { writes = s.writes + 1; write_misses = s.write_misses + 1 }

module _ (num_lines words_per_line : ℕ) where
  abbrev pub blank_line : Line
  blank_line = record { valid = false; dirty = false; tag = 0; words = replicate words_per_line 0 }

  -- The three parts of a word address.
  abbrev pub offset_of : ℕ → ℕ
  offset_of word_addr = word_addr % words_per_line

  abbrev pub index_of : ℕ → ℕ
  index_of word_addr = word_addr / words_per_line % num_lines

  abbrev pub tag_of : ℕ → ℕ
  tag_of word_addr = word_addr / (words_per_line * num_lines) % 2 ^ 32

  abbrev pub line_at : DataCache → ℕ → Line
  line_at c i = get_or c.lines i blank_line

  unfoldable pub reset : DataMemory → DataCache
  reset memory = record {
    memory = memory;
    lines = replicate num_lines blank_line;
    stats = no_stats;
  }

  unfoldable pub writeback_line : DataCache → ℕ → DataCache
  unfolding store_words
  writeback_line c line_index =
      let line = line_at c line_index in
      let base_word = (line.tag * num_lines + line_index) * words_per_line in
      record c {
        memory = store_words words_per_line 0 base_word line.words c.memory;
        lines = set c.lines line_index (record line { dirty = false });
        stats = record (c.stats) { writebacks = c.stats.writebacks + 1 };
      }

  -- The eviction at the start of `refill_line`.
  unfoldable pub evict : DataCache → ℕ → DataCache
  unfolding writeback_line
  evict c line_index =
      let line = line_at c line_index in
      let c' = count_eviction c in
      if line.valid then (if line.dirty then writeback_line c' line_index else c') else c

  unfoldable pub refill_line : DataCache → ℕ → ℕ → ℕ → DataCache
  unfolding evict load_words
  refill_line c line_index word_addr new_tag =
      let c' = evict c line_index in
      let base_word = word_addr / words_per_line * words_per_line in
      record c' {
        lines = set c'.lines line_index (record {
          valid = true;
          dirty = false;
          tag = new_tag;
          words = load_words words_per_line 0 base_word c'.memory;
        });
      }

  abbrev pub is_hit : DataCache → ℕ → Bool
  is_hit c word_addr =
      let line = line_at c (index_of word_addr) in line.valid && line.tag == tag_of word_addr

  -- `read(byte_address)`
  unfoldable pub read : DataCache → ℕ → Option ℕ × DataCache
  unfolding refill_line
  read c byte_address =
      let word_addr = byte_address / 4 in
      if leb (length c.memory) word_addr
      then (none, c)
      else (let hit = is_hit c word_addr in
          let c' : DataCache = record c { stats = count_read hit c.stats } in
          let c'' =
            if hit then c' else refill_line c' (index_of word_addr) word_addr (tag_of word_addr) in
          (some (get_or (line_at c'' (index_of word_addr)).words (offset_of word_addr) 0), c''))

  -- The write into the line that holds the word.
  unfoldable pub write_line : DataCache → ℕ → ℕ → DataCache
  write_line c word_addr word =
      let line = line_at c (index_of word_addr) in
      record c {
        lines =
            set c.lines (index_of word_addr)
              (record line { words = set line.words (offset_of word_addr) word; dirty = true });
      }

  -- `write(byte_address, data)`
  unfoldable pub write : DataCache → ℕ → ℕ → Bool × DataCache
  unfolding refill_line write_line
  write c byte_address word =
      let word_addr = byte_address / 4 in
      if leb (length c.memory) word_addr
      then (false, c)
      else (let hit = is_hit c word_addr in
          let c' : DataCache = record c { stats = count_write hit c.stats } in
          let c'' =
            if hit then c' else refill_line c' (index_of word_addr) word_addr (tag_of word_addr) in
          (true, write_line c'' word_addr word))

  -- The loop of `flush`: `n` lines from line `i` on.
  unfoldable pub flush_from : ℕ → ℕ → DataCache → DataCache
  unfolding writeback_line
  flush_from zero i c = c
  flush_from (suc n) i c =
      let line = line_at c i in
      flush_from n (i + 1) (if line.valid && line.dirty then writeback_line c i else c)

  unfoldable pub flush : DataCache → DataCache
  unfolding flush_from
  flush c = flush_from num_lines 0 c
