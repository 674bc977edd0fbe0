-- ===== src/Memory/DataMemory.antt =====
-- superscalar/core/memory/data/DataMemory.hpp: a word-addressed array behind byte addresses.
-- `SizeWords` is the length of the list.
use cpu_cpp.Base.{
  ℕ, ◌/◌, Bool, true, false, Option, none, some, List, ltb, leb, if◌then◌else◌, length, get_or, set,
  replicate,
}

abbrev pub DataMemory : Type 0
DataMemory = List ℕ

unfoldable pub read : DataMemory → ℕ → Option ℕ
read memory byte_address =
    let word_index = byte_address / 4 in
    if leb (length memory) word_index then none else some (get_or memory word_index 0)

-- Whether the write took place, and the memory.
unfoldable pub write : DataMemory → ℕ → ℕ → Bool × DataMemory
write memory byte_address word =
    let word_index = byte_address / 4 in
    if leb (length memory) word_index then (false, memory) else (true, set memory word_index word)

unfoldable pub read_word : DataMemory → ℕ → ℕ
read_word memory word_index =
    if leb (length memory) word_index then 0 else get_or memory word_index 0

unfoldable pub write_word : DataMemory → ℕ → ℕ → DataMemory
write_word memory word_index word =
    if ltb word_index (length memory) then set memory word_index word else memory

unfoldable pub reset : ℕ → DataMemory
reset size_words = replicate size_words 0
