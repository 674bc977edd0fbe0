-- ===== src/Fetch/Refilled.antt =====
-- A miss of the instruction cache, from the report to the refilled line, with a memory that answers
-- after any number of cycles.
use cpu_cpp.Base.{
  ℕ, ◌+◌, ◌-◌, ◌*◌, ◌/◌, ◌%◌, ◌^◌, ◌≤◌, ◌<◌, ◌≡◌, refl, sym, ap, ◌∙◌, Bool, true, false, ◌&&◌, List,
  [], ◌∷◌, arith, leb, ◌==◌, if◌then◌else◌, ==_refl, length, get_or, set, get_or-set_self,
}
use mathlib.Core.Path.{subst, ap₂}
use native.Mathlib.Nat.{div-div-eq-div-mul, mod-mod_of_dvd, mod-add-div, dvd-mul_right}
use cpu_cpp.Fetch.InstructionCache.{
  Geometry, CacheLine, InstructionCache, blank_line, line_bytes, get_line_index, get_tag,
  get_instruction_offset, refill, evaluate_port,
}
use cpu_cpp.Fetch.CacheController.{State, Controller, Outputs, word_address, base_of, cycle}
use cpu_cpp.Fetch.LineFill.{clocked, filled, during, serve, get_or-filled, fetched_lem}

-- The arithmetic of a line.
base_quotient : (a l : ℕ) → 0 < l → (a - a % l) / l ≡ a / l
base_quotient a l h = grind arith

offset-lt : (p b n : ℕ) → 0 < b → 0 < n → p % (b * n) / b < n
offset-lt p b n h k = grind arith

small_mod : (x m : ℕ) → x < m → x % m ≡ x
small_mod x m h = grind arith

index-lt : (q n : ℕ) → 0 < n → q % n < n
index-lt q n h = omega arith

mod-le : (p l : ℕ) → p % l ≤ p
mod-le p l = grind arith

word_of : (p b n : ℕ) → 0 < b → 0 < n → (p - p % (b * n)) + p % (b * n) / b * b ≡ p - p % b
word_of p b n h k =
    let r = p % (b * n) in
    omega (
      arith,
      mod-mod_of_dvd b p (dvd-mul_right b n),
      mod-add-div r b,
      mod-le p (b * n),
      (let c : r / b * b ≡ b * (r / b) = grind arith in c),
    )

same_base : (a p l : ℕ) → a / l ≡ p / l → a - a % l ≡ p - p % l
same_base a p l h = grind arith

-- Sizes of at least one, with a line whose words the eight-bit counter can count.
pub record IsSized (g : Geometry) : Type 0 where
  pub bytes_pos : 0 < g.instruction_bytes
  pub words_pos : 0 < g.instructions_per_line
  pub words_counted : g.instructions_per_line ≤ 256
  pub lines_pos : 0 < g.num_lines

-- A controller that waits for a miss, with its arrays of their sizes.
pub record IsWaiting (g : Geometry) (c : Controller) : Type 0 where
  pub waits : c.state ≡ State.idle
  pub buffer_sized : length c.refill_buffer ≡ g.instructions_per_line
  pub cache_sized : length c.cache ≡ g.num_lines

-- The end of a refill for the address `p`.
pub record Served (g : Geometry) (memory : ℕ → ℕ) (p : ℕ) (r : Outputs × Controller) : Type 0 where
  pub done : r.0.refill_done ≡ true
  pub waits : r.1.state ≡ State.idle
  pub hit :
      evaluate_port g r.1.cache p
      ≡ (true, memory (p - p % g.instruction_bytes) % 2 ^ (8 * g.instruction_bytes))

module _ (g : Geometry) (s : IsSized g) where
  bytes_pos : 0 < line_bytes g
  bytes_pos = let h = s.bytes_pos in let k = s.words_pos in grind (arith, h, k)

  abbrev PortAt : Type 0
  PortAt = Bool × ℕ

  -- What the port makes of a line.
  abbrev port_of : ℕ → CacheLine → PortAt
  port_of p line =
      if line.valid && line.tag == get_tag g p
      then (
        true,
        get_or line.instructions (get_instruction_offset g p) 0 % 2 ^ (8 * g.instruction_bytes),
      )
      else (false, 0)

  abbrev PortSame : PortAt → PortAt → Type 0
  PortSame a b = a ≡ b

  line_of : ℕ → List ℕ → CacheLine
  line_of p buffer = record { valid = true; tag = get_tag g p; instructions = buffer }

  hit_refilled :
      (lines : InstructionCache) (buffer : List ℕ) (p : ℕ)
      → length lines ≡ g.num_lines
      → PortSame
          (evaluate_port g (refill g lines (get_line_index g p) (get_tag g p) buffer) p)
          (true, get_or buffer (get_instruction_offset g p) 0 % 2 ^ (8 * g.instruction_bytes))
  unfolding evaluate_port refill line_of
  hit_refilled lines buffer p len =
      let i = get_line_index g p in
      let tag = get_tag g p in
      let inside = index-lt (p / line_bytes g) g.num_lines s.lines_pos in
      let room : leb g.num_lines i ≡ false = ground (arith, inside) in
      let word : PortAt =
        (true, get_or buffer (get_instruction_offset g p) 0 % 2 ^ (8 * g.instruction_bytes)) in
      let miss : PortAt = (false, 0) in
      ap (λ b. evaluate_port g (if b then lines else set lines i (line_of p buffer)) p) room
      ∙ ap (port_of p)
          (get_or-set_self lines i (line_of p buffer) (blank_line g) (omega (arith, inside, len)))
      ∙ ap (λ b. if b then word else miss) (==_refl tag)

  index_same :
      (a p : ℕ)
      → a / line_bytes g ≡ p / line_bytes g
      → get_line_index g (base_of g a) ≡ get_line_index g p
  index_same a p e = ap (λ q. q % g.num_lines) (base_quotient a (line_bytes g) bytes_pos ∙ e)

  tag_same : (a p : ℕ) → a / line_bytes g ≡ p / line_bytes g → get_tag g (base_of g a) ≡ get_tag g p
  tag_same a p e =
      sym (div-div-eq-div-mul (base_of g a) (line_bytes g) g.num_lines)
      ∙ ap (λ q. q / g.num_lines) (base_quotient a (line_bytes g) bytes_pos ∙ e)
      ∙ div-div-eq-div-mul p (line_bytes g) g.num_lines

  address_same :
      (a p : ℕ)
      → a / line_bytes g ≡ p / line_bytes g
      → p < 2 ^ g.address_width
      → word_address g (base_of g a) (get_instruction_offset g p) ≡ p - p % g.instruction_bytes
  address_same a p e h =
      let ib = g.instruction_bytes in
      ap (λ b. (b + get_instruction_offset g p * ib) % 2 ^ g.address_width)
        (same_base a p (line_bytes g) e)
      ∙ ap (λ x. x % 2 ^ g.address_width)
          (word_of p ib g.instructions_per_line s.bytes_pos s.words_pos)
      ∙ small_mod (p - p % ib) (2 ^ g.address_width) (omega (arith, h))

  -- The installation and the completion of the words of the line.
  finished :
      (memory : ℕ → ℕ) (c : Controller) (address p : ℕ) (delays : List ℕ) (w' m' : ℕ)
      → IsWaiting g c
      → length delays ≡ g.instructions_per_line
      → address / line_bytes g ≡ p / line_bytes g
      → p < 2 ^ g.address_width
      → (let b = base_of g address in
          Served g memory p (
            clocked g memory false
              (clocked g memory false (
                during g memory address b c.cache State.install w'
                  (filled g memory b (length delays) 0 c.refill_buffer)
                  m')).1))
  unfolding cycle
  finished memory c address p delays w' m' w len e h =
      let b = base_of g address in
      let off = get_instruction_offset g p in
      let buffer = filled g memory b (length delays) 0 c.refill_buffer in
      let within =
        offset-lt p g.instruction_bytes g.instructions_per_line s.bytes_pos s.words_pos in
      let read : ℕ → PortAt = λ v. (true, v % 2 ^ (8 * g.instruction_bytes)) in
      record {
        done = refl;
        waits = refl;
        hit =
            ap₂ (λ i t. evaluate_port g (refill g c.cache i t buffer) p) (index_same address p e)
              (tag_same address p e)
            ∙ hit_refilled c.cache buffer p w.cache_sized
            ∙ ap read (
                get_or-filled g memory b (length delays) 0 off c.refill_buffer (omega arith)
                  (omega (arith, within, len)) (let k = w.buffer_sized in omega (arith, within, k))
                ∙ ap memory (address_same address p e h));
      }

  -- For sizes of at least one and at most 256 words in a line, from a waiting controller: after a
  -- miss at any address, and a memory that answers each word of the line after any number of
  -- cycles, the controller has pulsed its completion and waits again, and each address of the same
  -- line (within the address width) hits with the memory's word at its place.
  pub serve_lem :
      (memory : ℕ → ℕ) (c : Controller) (address p : ℕ) (delays : List ℕ)
      → IsWaiting g c
      → length delays ≡ g.instructions_per_line
      → address / line_bytes g ≡ p / line_bytes g
      → p < 2 ^ g.address_width
      → Served g memory p (serve g memory address delays c)
  unfolding cycle
  serve_lem memory c address p [] w len e h = absurd (let k = s.words_pos in omega (arith, len, k))
  serve_lem memory c address p (d ∷ ds) w len e h =
      let (w', m', fill) =
        fetched_lem g memory address (base_of g address) c.cache ds d 0 c.memory_address
          c.refill_buffer (omega (arith, len)) s.words_counted in
      subst (λ st. Served g memory p (serve g memory address (d ∷ ds) (record c { state = st })))
        (sym w.waits)
        (subst (λ k. Served g memory p (clocked g memory false (clocked g memory false k).1))
          (sym fill) (finished memory c address p (d ∷ ds) w' m' w len e h))
