-- ===== src/Memory/DataCache/Words.antt =====
-- The copying loops of superscalar/core/memory/data/DataCache.hpp, and the arithmetic of word
-- addresses: block number, place in the block, line and tag.
use cpu_cpp.Base.{
  ℕ, zero, suc, ◌+◌, ◌-◌, ◌*◌, ◌/◌, ◌%◌, ◌≤◌, ◌<◌, ◌≡◌, refl, sym, ap, ◌∙◌, inl, inr, true, false,
  ◌&&◌, List, arith, ltb, leb, ◌==◌, if◌then◌else◌, lt→ltb, ==_iff, test_ext, Bool-cases, length,
  get_or, length-set, get_or-set_self, get_or-set_ne, get_or_out,
}
use native.Mathlib.Nat.{
  div-div-eq-div-mul, div-eq_of_lt-le, div-mul-le_self, lt-div-mul-add, mul-add-div_right,
  div-eq_of_lt, mod-eq_of_lt, add-zero, mul-add-mod_self_right,
}
use mathlib.Core.Path.{subst}
use native.Mathlib.Nat.{mod-lt}
use cpu_cpp.Memory.DataMemory
use cpu_cpp.Memory.DataMemory.{DataMemory}
use cpu_cpp.Memory.DataCache.{store_words, load_words}

pub div-div : (a w n : ℕ) → 0 < w → 0 < n → a / (w * n) ≡ a / w / n
div-div a w n p q = sym (div-div-eq-div-mul a w n)

pub block_range : (a b w : ℕ) → 0 < w → b * w ≤ a → a < b * w + w → a / w ≡ b
block_range a b w p q r = div-eq_of_lt-le w q (grind arith)

pub block_start : (a w : ℕ) → 0 < w → (a / w * w ≤ a) × (a < a / w * w + w)
block_start a w p = (div-mul-le_self a w, lt-div-mul-add p)

pub block_rest : (a w : ℕ) → 0 < w → a / w * w + a % w ≡ a
block_rest a w p = omega arith

pub line_of_block : (t i n : ℕ) → i < n → (t * n + i) % n ≡ i
line_of_block t i n p = mul-add-mod_self_right t n i ∙ mod-eq_of_lt p

pub tag_of_block : (t i n : ℕ) → i < n → (t * n + i) / n ≡ t
tag_of_block t i n p =
    mul-add-div_right (omega arith) t i ∙ ap (λ k. t + k) (div-eq_of_lt p) ∙ add-zero t

-- Comparing tags on the line of a block is comparing blocks.
pub tag_test : (t q n : ℕ) → 0 < n → (t == q / n) ≡ (t * n + q % n == q)
tag_test t q n p =
    test_ext (t == q / n) (t * n + q % n == q)
      (λ e.
        (==_iff (t * n + q % n) q).1
          (ap (λ k. k * n + q % n) ((==_iff t (q / n)).0 e) ∙ block_rest q n p))
      (λ e. (==_iff t (q / n)).1 (
        sym (tag_of_block t (q % n) n (mod-lt q p))
        ∙ ap (λ k. k / n) ((==_iff (t * n + q % n) q).0 e)))

-- The places of block `b` are those whose block is `b`.
pub block_test : (b a w : ℕ) → 0 < w → (leb (b * w + 0) a && ltb a (b * w + 0 + w)) ≡ (b == a / w)
block_test b a w p =
    test_ext _ _
      (λ e. (==_iff b (a / w)).1 (sym (block_range a b w p (ground arith) (ground arith))))
      (λ e.
        subst (λ k. (leb (k * w + 0) a && ltb a (k * w + 0 + w)) ≡ true)
          (sym ((==_iff b (a / w)).0 e)) (within (block_start a w p)))
  where
    within :
        (a / w * w ≤ a) × (a < a / w * w + w)
        → (leb (a / w * w + 0) a && ltb a (a / w * w + 0 + w)) ≡ true
    within s = ground arith

-- One round of the copy to the memory.
store_word : ℕ → ℕ → DataMemory → DataMemory
store_word i word memory =
    if ltb i (length memory) then DataMemory.write_word memory i word else memory

length-store_word :
    (i word : ℕ) (memory : DataMemory) → length (store_word i word memory) ≡ length memory
unfolding store_word DataMemory.write_word
length-store_word i word memory = elim (Bool-cases (ltb i (length memory))) [
  | inl e ↦ rw e (length-set memory i word)
  | inr e ↦ rw e
]

get-store_word :
    (i word : ℕ) (memory : DataMemory) (a : ℕ)
    → a < length memory
    → get_or (store_word i word memory) a 0 ≡ (if i == a then word else get_or memory a 0)
unfolding store_word DataMemory.write_word
get-store_word i word memory a p = elim (Bool-cases (i == a)) [
  | inl e ↦
      let e' : i ≡ a = (==_iff i a).0 e in
      let t : ltb i (length memory) ≡ true = lt→ltb _ _ (omega arith) in
      rw (e, t) (rw e' (get_or-set_self memory a word 0 p))
  | inr e ↦ elim (Bool-cases (ltb i (length memory))) [
    | inl t ↦ rw (e, t) (get_or-set_ne memory i a word 0 (ground arith))
    | inr t ↦ rw (e, t)
  ]
]

pub length-store_words :
    (n w base : ℕ) (words : List ℕ) (memory : DataMemory)
    → length (store_words n w base words memory) ≡ length memory
unfolding store_words store_word
length-store_words zero w base words memory = refl
length-store_words (suc n) w base words memory =
    length-store_words n (w + 1) base words (store_word (base + w) (get_or words w 0) memory)
    ∙ length-store_word (base + w) (get_or words w 0) memory

-- The round for word `w` before those from `w + 1` on.
one_more :
    (base w n a x y z : ℕ)
    → (base + w ≡ a → x ≡ y)
    → (if leb (base + (w + 1)) a && ltb a (base + (w + 1) + n)
        then x
        else if base + w == a
        then y
        else z)
      ≡ (if leb (base + w) a && ltb a (base + w + suc n) then x else z)
one_more base w n a x y z h = elim (Bool-cases (base + w == a)) [
  | inl e ↦ let same = h ((==_iff _ a).0 e) in ground arith
  | inr e ↦ ground arith
]

-- After the loop the memory has the words of the line on its places, and nothing else has changed.
pub get-store_words :
    (n w base : ℕ) (words : List ℕ) (memory : DataMemory) (a : ℕ)
    → a < length memory
    → get_or (store_words n w base words memory) a 0 ≡ (
        if leb (base + w) a && ltb a (base + w + n)
        then get_or words (a - base) 0
        else get_or memory a 0)
unfolding store_words store_word
get-store_words zero w base words memory a p = ground arith
get-store_words (suc n) w base words memory a p =
    get-store_words n (w + 1) base words (store_word (base + w) (get_or words w 0) memory) a
      (omega (arith, length-store_word (base + w) (get_or words w 0) memory))
    ∙ step
  where
    at : base + w ≡ a → get_or words (a - base) 0 ≡ get_or words w 0
    at e = ap (λ k. get_or words k 0) (omega arith)

    step :
        (if leb (base + (w + 1)) a && ltb a (base + (w + 1) + n)
          then get_or words (a - base) 0
          else get_or (store_word (base + w) (get_or words w 0) memory) a 0)
        ≡ (if leb (base + w) a && ltb a (base + w + suc n)
            then get_or words (a - base) 0
            else get_or memory a 0)
    step =
        rw (get-store_word (base + w) (get_or words w 0) memory a p) (
          one_more base w n a (get_or words (a - base) 0) (get_or words w 0) (get_or memory a 0) at)

pub get-load_words :
    (n w base : ℕ) (memory : DataMemory) (o : ℕ)
    → o < n
    → get_or (load_words n w base memory) o 0 ≡ get_or memory (base + w + o) 0
unfolding load_words DataMemory.read_word
get-load_words zero w base memory o p = elim p [ ]
get-load_words (suc n) w base memory zero p = elim (Bool-cases (ltb (base + w) (length memory))) [
  | inl e ↦ let e' : leb (length memory) (base + w) ≡ false = ground arith in rw (e, e', add-zero)
  | inr e ↦ rw (e, add-zero) (sym (get_or_out memory (base + w) 0 (ground arith)))
]
get-load_words (suc n) w base memory (suc o) p =
    get-load_words n (w + 1) base memory o (omega arith) ∙ ap (λ k. get_or memory k 0) (omega arith)

pub length-load_words :
    (n w base : ℕ) (memory : DataMemory) → length (load_words n w base memory) ≡ n
unfolding load_words
length-load_words zero w base memory = refl
length-load_words (suc n) w base memory = ap suc (length-load_words n (w + 1) base memory)
