-- ===== src/Decode/Bits.antt =====
-- The binary operations of the jump's immediate as arithmetic: a mask of low ones is a remainder, a
-- single one tests a digit, and an or with a multiple of a power of two above a number is a sum.
use Prim.Native.Nat.{min, max, bit_and, bit_or, digits, bitwise, bit_and-bitwise, bit_or-bitwise}
use native.Mathlib.Nat.{div-div-eq-div-mul}
use cpu_cpp.Base.{
  ℕ, zero, suc, ◌+◌, ◌*◌, ◌/◌, ◌%◌, ◌^◌, ◌≤◌, ◌<◌, ◌≡◌, refl, sym, ap, ◌∙◌, arith, ltb, ◌==◌,
  if◌then◌else◌,
}
use cpu_cpp.Decode.Fields.{low_digits, power_pos}
use cpu_cpp.Decode.Decoder.{jump_immediate}

module _ (rest : ℕ → ℕ) (digit : ℕ → ℕ → ℕ) where
  -- Fuel beyond the first number changes nothing.
  enough_digits : (n m a b : ℕ) → a ≤ n → a ≤ m → digits rest digit n a b ≡ digits rest digit m a b
  enough_digits n m zero b p q = done n ∙ sym (done m)
    where
      done : (k : ℕ) → digits rest digit k 0 b ≡ rest b
      done zero = refl
      done (suc k) = refl
  enough_digits zero m (suc a) b p q = absurd (omega arith)
  enough_digits (suc n) zero (suc a) b p q = absurd (omega arith)
  enough_digits (suc n) (suc m) (suc a) b p q =
      ap (λ k. k * 2 + digit (suc a % 2) (b % 2))
        (enough_digits n m (suc a / 2) (b / 2) (omega arith) (omega arith))

  -- The lowest digit apart.
  lowest_apart :
      (a b : ℕ)
      → bitwise rest digit (suc a) b
        ≡ bitwise rest digit (suc a / 2) (b / 2) * 2 + digit (suc a % 2) (b % 2)
  lowest_apart a b =
      ap (λ k. k * 2 + digit (suc a % 2) (b % 2))
        (enough_digits a (suc a / 2) (suc a / 2) (b / 2) (omega arith) (omega arith))

and_halves : (a b : ℕ) → bit_and a b ≡ bit_and (a / 2) (b / 2) * 2 + min (a % 2) (b % 2)
and_halves zero b =
    let here : bit_and 0 b ≡ 0 = bit_and-bitwise 0 b in
    let there : bit_and 0 (b / 2) ≡ 0 = bit_and-bitwise 0 (b / 2) in omega (arith, here, there)
and_halves (suc a) b =
    bit_and-bitwise (suc a) b
    ∙ lowest_apart (λ _. 0) min a b
    ∙ ap (λ k. k * 2 + min (suc a % 2) (b % 2)) (sym (bit_and-bitwise (suc a / 2) (b / 2)))

or_halves : (a b : ℕ) → bit_or a b ≡ bit_or (a / 2) (b / 2) * 2 + max (a % 2) (b % 2)
or_halves zero b =
    let here : bit_or 0 b ≡ b = bit_or-bitwise 0 b in
    let there : bit_or 0 (b / 2) ≡ b / 2 = bit_or-bitwise 0 (b / 2) in omega (arith, here, there)
or_halves (suc a) b =
    bit_or-bitwise (suc a) b
    ∙ lowest_apart (λ c. c) max a b
    ∙ ap (λ k. k * 2 + max (suc a % 2) (b % 2)) (sym (bit_or-bitwise (suc a / 2) (b / 2)))

-- A number with `n` zeros below it, and `n` ones.
abbrev above : ℕ → ℕ → ℕ
above zero c = c
above (suc n) c = 2 * above n c

abbrev ones : ℕ → ℕ
ones zero = 0
ones (suc n) = 1 + 2 * ones n

doubles : (n : ℕ) → 2 * 2 ^ n ≡ 2 ^ suc n
doubles n = grind arith

and_zero : (n a : ℕ) → a ≤ n → bit_and a 0 ≡ 0
and_zero n zero h = bit_and-bitwise 0 0
and_zero zero (suc a) h = absurd (omega arith)
and_zero (suc n) (suc a) h =
    let half = and_zero n (suc a / 2) (omega arith) in
    let whole = and_halves (suc a) 0 in omega (arith, half, whole)

and_ones : (n a : ℕ) → bit_and a (ones n) ≡ a % 2 ^ n
and_ones zero a = and_zero a a (omega arith) ∙ omega arith
and_ones (suc n) a =
    let half = and_ones n (a / 2) in
    let whole = and_halves a (ones (suc n)) in
    let digit = low_digits a (2 ^ n) (power_pos n) in
    let k : ones (suc n) / 2 ≡ ones n = omega arith in
    let mid = whole ∙ ap (λ m. bit_and (a / 2) m * 2 + min (a % 2) (ones (suc n) % 2)) k in
    let doubled : bit_and a (ones (suc n)) ≡ a % (2 * 2 ^ n) = omega (arith, mid, half, digit) in
    doubled ∙ ap (λ m. a % m) (doubles n)

and_one_above : (n a : ℕ) → bit_and a (above n 1) ≡ above n (a / 2 ^ n % 2)
and_one_above zero a =
    let half = and_zero (a / 2) (a / 2) (omega arith) in
    let whole = and_halves a 1 in omega (arith, half, whole)
and_one_above (suc n) a =
    let half = and_one_above n (a / 2) in
    let k : above (suc n) 1 / 2 ≡ above n 1 = omega arith in
    let mid =
      and_halves a (above (suc n) 1)
      ∙ ap (λ m. bit_and (a / 2) m * 2 + min (a % 2) (above (suc n) 1 % 2)) k in
    let doubled : bit_and a (above (suc n) 1) ≡ 2 * above n (a / 2 / 2 ^ n % 2) =
      omega (arith, mid, half) in
    doubled
    ∙ ap (λ q. 2 * above n (q % 2)) (div-div-eq-div-mul a 2 (2 ^ n) ∙ ap (λ m. a / m) (doubles n))

or_above : (n a c : ℕ) → a < 2 ^ n → bit_or a (above n c) ≡ a + above n c
or_above zero a c h =
    let z : a ≡ 0 = omega arith in ap (λ k. bit_or k c) z ∙ bit_or-bitwise 0 c ∙ omega (arith, z)
or_above (suc n) a c h =
    let p = doubles n in
    let half = or_above n (a / 2) c (omega (arith, p)) in
    let k : above (suc n) c / 2 ≡ above n c = omega arith in
    let mid =
      or_halves a (above (suc n) c)
      ∙ ap (λ m. bit_or (a / 2) m * 2 + max (a % 2) (above (suc n) c % 2)) k in
    omega (arith, mid, half)

-- Two's complement of 26 bits, in 32.
abbrev pub sign_extend26 : ℕ → ℕ
sign_extend26 x = if ltb x 0x200_0000 then x else x + 0xFC00_0000

above-zero : (n c : ℕ) → (above n c == 0) ≡ (c == 0)
above-zero zero c = refl
above-zero (suc n) c = let ih = above-zero n c in ground (arith, ih)

-- The sign test of the code is the comparison with the half of the range.
sign_clear : (x : ℕ) → x < 0x400_0000 → (bit_and x 0x200_0000 == 0) ≡ ltb x 0x200_0000
sign_clear x h =
    ap (λ k. k == 0) (and_one_above 25 x) ∙ above-zero 25 (x / 2 ^ 25 % 2) ∙ ground arith

pub jump_immediate_lem : (raw : ℕ) → jump_immediate raw ≡ sign_extend26 (raw % 2 ^ 26)
unfolding jump_immediate
jump_immediate_lem raw =
    let low : bit_and raw 0x3FF_FFFF ≡ raw % 2 ^ 26 = and_ones 26 raw in
    let small : raw % 2 ^ 26 < 0x400_0000 = omega arith in
    ap (λ x. if bit_and x 0x200_0000 == 0 then x else bit_or x 0xFC00_0000) low
    ∙ ap (λ b. if b then raw % 2 ^ 26 else bit_or (raw % 2 ^ 26) 0xFC00_0000)
        (sign_clear (raw % 2 ^ 26) small)
    ∙ ap (λ v. if ltb (raw % 2 ^ 26) 0x200_0000 then raw % 2 ^ 26 else v)
        (or_above 26 (raw % 2 ^ 26) 63 small)
