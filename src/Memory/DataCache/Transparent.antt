-- ===== src/Memory/DataCache/Transparent.antt =====
-- A client of superscalar/core/memory/data/DataCache.hpp beside a client of
-- superscalar/core/memory/data/DataMemory.hpp.
use cpu_cpp.Base.{
  ℕ, ◌+◌, ◌*◌, ◌/◌, ◌^◌, ◌≤◌, ◌<◌, ◌≡◌, refl, sym, ap, ◌∙◌, inl, inr, Bool, true, false, ◌&&◌,
  Option, none, some, List, [], ◌∷◌, arith, leb, ◌==◌, if◌then◌else◌, ==_iff, Bool-cases, length,
  get_or, set, length-set, length-replicate, get_or-set_self, get_or-set_ne, get_or-replicate,
}
use mathlib.Core.Bool.{false≢true}
use mathlib.Core.Path.{ap₂, subst}
use cpu_cpp.Memory.DataMemory
use cpu_cpp.Memory.DataMemory.{DataMemory}
use cpu_cpp.Memory.DataCache
use cpu_cpp.Memory.DataCache.{Line, DataCache, line_at, blank_line, offset_of, index_of}
use cpu_cpp.Memory.DataCache.View.{view, IsValid, holds}
use cpu_cpp.Memory.DataCache.Access.{read-view}
use cpu_cpp.Memory.DataCache.Write.{write-view}

pub data Access : Type 0 where
  load : ℕ → Access
  store : ℕ → ℕ → Access

pub data Reply : Type 0 where
  word : Option ℕ → Reply
  done : Bool → Reply

unfoldable pub access_memory : DataMemory → Access → Reply × DataMemory
access_memory m (load b) = (word (DataMemory.read m b), m)
access_memory m (store b v) = let (d, m') = DataMemory.write m b v in (done d, m')

unfoldable pub run_memory : DataMemory → List Access → List Reply
run_memory m [] = []
run_memory m (x ∷ xs) = let (r, m') = access_memory m x in r ∷ run_memory m' xs

module _ (n w : ℕ) where
  unfoldable pub access_cache : DataCache → Access → Reply × DataCache
  access_cache c (load b) = let (v, c') = DataCache.read n w c b in (word v, c')
  access_cache c (store b v) = let (d, c') = DataCache.write n w c b v in (done d, c')

  unfoldable pub run_cache : DataCache → List Access → List Reply
  run_cache c [] = []
  run_cache c (x ∷ xs) = let (r, c') = access_cache c x in r ∷ run_cache c' xs

  -- The memory without a cache that the reader believes in.
  pub record Agrees (c : DataCache) (m : DataMemory) : Type 0 where
    pub valid : IsValid n w c
    pub same_length : length c.memory ≡ length m
    pub same_words : (a : ℕ) → a < length m → view n w c a ≡ get_or m a 0

  -- Both sides refuse an access past the memory and change nothing.
  read_out :
      (c : DataCache) (b : ℕ)
      → leb (length c.memory) (b / 4) ≡ true
      → DataCache.read n w c b ≡ (none, c)
  unfolding DataCache.read
  read_out c b e = rw e refl

  write_out :
      (c : DataCache) (b v : ℕ)
      → leb (length c.memory) (b / 4) ≡ true
      → DataCache.write n w c b v ≡ (false, c)
  unfolding DataCache.write
  write_out c b v e = rw e refl

  load-Agrees :
      (c : DataCache) (m : DataMemory) (b : ℕ)
      → Agrees c m
      → ((access_cache c (load b)).0 ≡ (access_memory m (load b)).0)
        × Agrees (access_cache c (load b)).1 (access_memory m (load b)).1
  unfolding access_cache access_memory DataMemory.read
  load-Agrees c m b g = elim (Bool-cases (leb (length m) (b / 4))) [
    | inl e ↦ rw (e, read_out c b (rw g.same_length e)) (refl, g)
    | inr e ↦
        let p : b / 4 < length c.memory = ground (arith, g.same_length) in
        let (v, valid, len, same) = read-view n w c b g.valid p in
        rw e (
          ap word (v ∙ ap some (g.same_words (b / 4) (ground (arith, g.same_length)))),
          record {
            valid = valid;
            same_length = len ∙ g.same_length;
            same_words = λ a q. same a (ground (arith, g.same_length)) ∙ g.same_words a q;
          },
        )
  ]

  store_same :
      (c : DataCache) (m : DataMemory) (k v a : ℕ)
      → Agrees c m
      → k < length m
      → a < length m
      → (if k == a then v else view n w c a) ≡ get_or (set m k v) a 0
  store_same c m k v a g p q = elim (Bool-cases (k == a)) [
    | inl e ↦ rw e (
        sym
          (subst (λ z. get_or (set m k v) z 0 ≡ v) ((==_iff k a).0 e) (get_or-set_self m k v 0 p)))
    | inr e ↦ rw e (g.same_words a q ∙ sym (get_or-set_ne m k a v 0 (ground arith)))
  ]

  store-Agrees :
      (c : DataCache) (m : DataMemory) (b v : ℕ)
      → Agrees c m
      → ((access_cache c (store b v)).0 ≡ (access_memory m (store b v)).0)
        × Agrees (access_cache c (store b v)).1 (access_memory m (store b v)).1
  unfolding access_cache access_memory DataMemory.write
  store-Agrees c m b v g = elim (Bool-cases (leb (length m) (b / 4))) [
    | inl e ↦ rw (e, write_out c b v (rw g.same_length e)) (refl, g)
    | inr e ↦
        let p : b / 4 < length c.memory = ground (arith, g.same_length) in
        let (d, valid, len, same) = write-view n w c b v g.valid p in
        rw e (
          ap done d,
          record {
            valid = valid;
            same_length = len ∙ g.same_length ∙ sym (length-set m (b / 4) v);
            same_words = λ a q.
                let q' : a < length m = subst (λ l. a < l) (length-set m (b / 4) v) q in
                same a (subst (λ l. a < l) (sym g.same_length) q')
                ∙ store_same c m (b / 4) v a g (ground (arith, g.same_length)) q';
          },
        )
  ]

  access-Agrees :
      (c : DataCache) (m : DataMemory) (x : Access)
      → Agrees c m
      → ((access_cache c x).0 ≡ (access_memory m x).0)
        × Agrees (access_cache c x).1 (access_memory m x).1
  access-Agrees c m (load b) g = load-Agrees c m b g
  access-Agrees c m (store b v) g = store-Agrees c m b v g

  -- From a valid cache whose view is the memory `m`, every sequence of loads and stores gets the
  -- replies that it gets from `m` without a cache.
  pub run_transparent :
      (xs : List Access) (c : DataCache) (m : DataMemory)
      → Agrees c m
      → run_cache c xs ≡ run_memory m xs
  unfolding run_cache run_memory
  run_transparent [] c m g = refl
  run_transparent (x ∷ xs) c m g =
      let (r, g') = access-Agrees c m x g in
      ap₂ (λ y ys. y ∷ ys) r (run_transparent xs (access_cache c x).1 (access_memory m x).1 g')

  blank_holds : (m : DataMemory) (i a : ℕ) → holds n w (DataCache.reset n w m) i a ≡ true → ⊥
  unfolding DataCache.reset
  blank_holds m i a =
      subst (λ (l : Line). l.valid && l.tag * n + i == a / w ≡ true → ⊥)
        (sym (get_or-replicate n i (blank_line n w))) false≢true

  blank_view : (m : DataMemory) (a : ℕ) → view n w (DataCache.reset n w m) a ≡ get_or m a 0
  unfolding DataCache.reset
  blank_view m a =
      subst
        (λ (l : Line).
          (if l.valid && l.tag * n + index_of n w a == a / w
            then get_or l.words (offset_of n w a) 0
            else get_or m a 0)
          ≡ get_or m a 0)
        (sym (get_or-replicate n (index_of n w a) (blank_line n w))) refl

  -- A reset cache with at least one line of at least one word is valid and its view is the memory
  -- itself, if that has at most 2^32 words.
  pub reset-Agrees :
      (m : DataMemory) → 0 < n → 0 < w → length m ≤ 2 ^ 32 → Agrees (DataCache.reset n w m) m
  unfolding DataCache.reset
  reset-Agrees m p q r = record {
    valid = record {
      lines_pos = p;
      words_pos = q;
      sized = length-replicate n _;
      small = r;
      full = λ i k. rw (get_or-replicate n i (blank_line n w)) (length-replicate w 0);
      clean = λ i a k k' h. absurd (blank_holds m i a h);
    };
    same_length = refl;
    same_words = λ a k. blank_view m a;
  }
