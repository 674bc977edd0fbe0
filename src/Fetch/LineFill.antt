-- ===== src/Fetch/LineFill.antt =====
-- The words of a line, fetched one by one from a memory that answers after any number of cycles.
use cpu_cpp.Base.{
  ℕ, zero, suc, ◌+◌, ◌%◌, ◌^◌, ◌≤◌, ◌<◌, ◌≡◌, refl, ap, ◌∙◌, inl, inr, Bool, true, false, List, [],
  ◌∷◌, arith, ltb, leb, ◌==◌, if◌then◌else◌, ==_iff, Bool-cases, length, get_or, set, length-set,
  get_or-set_self, get_or-set_ne,
}
use mathlib.Core.Path.{subst, ap₂}
use cpu_cpp.Fetch.InstructionCache.{Geometry, InstructionCache}
use cpu_cpp.Fetch.CacheController.{State, Controller, Outputs, word_address, cycle}

module _ (g : Geometry) (memory : ℕ → ℕ) where
  -- A cycle with a quiet cache and a memory that answers, or not, for the address on its bus.
  abbrev pub clocked : Bool → Controller → Outputs × Controller
  clocked response c =
      cycle g
        (record {
          reset = false;
          miss = false;
          miss_address = 0;
          memory_response = response;
          memory_instruction = memory c.memory_address;
        })
        c

  abbrev waited : ℕ → Controller → Controller
  waited zero c = c
  waited (suc d) c = waited d (clocked false c).1

  -- A request, `d` cycles without an answer, and the answer, for each word.
  abbrev pub fetched : List ℕ → Controller → Controller
  fetched [] c = c
  fetched (d ∷ ds) c = fetched ds (clocked true (waited d (clocked false c).1)).1

  -- The reported miss, the words, the installation and the completion.
  abbrev pub serve : ℕ → List ℕ → Controller → Outputs × Controller
  serve address delays c =
      let c1 =
        (cycle g
          (record {
            reset = false;
            miss = true;
            miss_address = address;
            memory_response = false;
            memory_instruction = 0;
          })
          c).1 in
      clocked false (clocked false (fetched delays c1)).1

  -- The buffer after `k` words from `w` on.
  abbrev pub filled : ℕ → ℕ → ℕ → List ℕ → List ℕ
  filled b zero w buffer = buffer
  filled b (suc k) w buffer = filled b k (suc w) (set buffer w (memory (word_address g b w)))

  filled_before :
      (b k w i : ℕ) (buffer : List ℕ) → i < w → get_or (filled b k w buffer) i 0 ≡ get_or buffer i 0
  filled_before b zero w i buffer h = refl
  filled_before b (suc k) w i buffer h =
      filled_before b k (suc w) i (set buffer w (memory (word_address g b w))) (omega arith)
      ∙ get_or-set_ne buffer w i (memory (word_address g b w)) 0 (λ e. omega (arith, e))

  pub get_or-filled :
      (b k w i : ℕ) (buffer : List ℕ)
      → w ≤ i
      → i < w + k
      → i < length buffer
      → get_or (filled b k w buffer) i 0 ≡ memory (word_address g b i)
  get_or-filled b zero w i buffer h l m = absurd (omega arith)
  get_or-filled b (suc k) w i buffer h l m =
      let v = memory (word_address g b w) in
      elim (Bool-cases (w == i)) [
        | inl e ↦
            let e' = (==_iff w i).0 e in
            filled_before b k (suc w) i (set buffer w v) (omega (arith, e'))
            ∙ subst (λ j. get_or (set buffer w v) j 0 ≡ memory (word_address g b j)) e'
                (get_or-set_self buffer w v 0 (omega (arith, e')))
        | inr e ↦
            get_or-filled b k (suc w) i (set buffer w v) (ground arith) (omega arith)
              (let s = length-set buffer w v in omega (arith, s))
      ]

  module _ (a b : ℕ) (cache : InstructionCache) where
    abbrev pub during : State → ℕ → List ℕ → ℕ → Controller
    during state w buffer m = record {
      state = state;
      miss_address = a;
      line_base = b;
      refill_word = w;
      refill_buffer = buffer;
      memory_address = m;
      cache = cache;
    }

    waited_same :
        (d w : ℕ) (buffer : List ℕ)
        → waited d (during State.refill_wait w buffer (word_address g b w))
          ≡ during State.refill_wait w buffer (word_address g b w)
    unfolding cycle
    waited_same zero w buffer = refl
    waited_same (suc d) w buffer = waited_same d w buffer

    abbrev word_next : ℕ → List ℕ → Bool → Bool → Controller
    word_next w buffer last within =
        during (if last then State.install else State.refill_request) ((w + 1) % 2 ^ 8)
          (if within then set buffer w (memory (word_address g b w)) else buffer)
          (word_address g b w)

    abbrev after_word : ℕ → List ℕ → Controller
    after_word w buffer =
        word_next w buffer (leb g.instructions_per_line (w + 1)) (ltb w g.instructions_per_line)

    one_word :
        (d w m : ℕ) (buffer : List ℕ)
        → (clocked true (waited d (clocked false (during State.refill_request w buffer m)).1)).1
          ≡ after_word w buffer
    unfolding cycle
    one_word d w m buffer = ap (λ c. (clocked true c).1) (waited_same d w buffer)

    pub fetched_lem :
        (ds : List ℕ) (d w m : ℕ) (buffer : List ℕ)
        → w + length (d ∷ ds) ≡ g.instructions_per_line
        → g.instructions_per_line ≤ 256
        → (w' : ℕ) × (m' : ℕ) × (fetched (d ∷ ds) (during State.refill_request w buffer m)
            ≡ during State.install w' (filled b (length (d ∷ ds)) w buffer) m')
    fetched_lem [] d w m buffer h k =
        let all : ltb w g.instructions_per_line ≡ true = ground arith in
        let last : leb g.instructions_per_line (w + 1) ≡ true = ground arith in
        (
          (w + 1) % 2 ^ 8,
          word_address g b w,
          one_word d w m buffer ∙ ap₂ (word_next w buffer) last all,
        )
    fetched_lem (d' ∷ ds) d w m buffer h k =
        let v = memory (word_address g b w) in
        let all : ltb w g.instructions_per_line ≡ true = ground arith in
        let last : leb g.instructions_per_line (w + 1) ≡ false = ground arith in
        let (w', m', e) =
          fetched_lem ds d' (suc w) (word_address g b w) (set buffer w v) (omega (arith, h)) k in
        let counted : (w + 1) % 2 ^ 8 ≡ suc w = omega (arith, h, k) in
        (
          w',
          m',
          ap (fetched (d' ∷ ds)) (
                one_word d w m buffer
                ∙ ap₂ (word_next w buffer) last all
                ∙ ap (λ n. during State.refill_request n (set buffer w v) (word_address g b w))
                    counted)
              ∙ e,
        )
