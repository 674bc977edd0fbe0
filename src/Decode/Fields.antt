-- ===== src/Decode/Fields.antt =====
-- The fields of an instruction word as arithmetic on the word, under the documented behaviour of
-- `logic::Bus`.
use cpu_cpp.Base.{
  ℕ, zero, suc, ◌+◌, ◌*◌, ◌/◌, ◌%◌, ◌^◌, ◌<◌, ◌≡◌, refl, sym, ap, ◌∙◌, Bool, true, false, List, [],
  ◌∷◌, ◌++◌, arith, ltb, ◌==◌, if◌then◌else◌, length, replicate,
}
use mathlib.Core.Path.{ap₂}
use native.Mathlib.Nat.{div-div-eq-div-mul, pow-suc}
use cpu_cpp.Decode.Instruction.{BusLogic, opcode_of, wires, opcode, rd, rs1, rs2, immediate}

abbrev pub bit : ℕ → ℕ → Bool
bit v i = v / 2 ^ i % 2 == 1

abbrev pub one_if : Bool → ℕ
one_if b = if b then 1 else 0

-- The number whose binary digits, the lowest first, are the list.
abbrev pub value : List Bool → ℕ
value [] = 0
value (b ∷ bs) = one_if b + 2 * value bs

-- A bus of the `logic` library: `write_value` sets wire `i` to bit `i`, `read_value` reads the
-- number back.
pub record BusLaws (bus : BusLogic) : Type 0 where
  pub wire_is_bit : (v i : ℕ) → bus.wire v i ≡ bit v i
  pub read_value_is : (bs : List Bool) → bus.read_value bs ≡ value bs

-- Two's complement of 18 bits, in 32.
abbrev pub sign_extend : ℕ → ℕ
sign_extend x = if ltb x 0x2_0000 then x else x + 0xFFFC_0000

digit_of : (q : ℕ) → one_if (q % 2 == 1) ≡ q % 2
digit_of q = ground arith

pub low_digits : (q m : ℕ) → 0 < m → q % 2 + 2 * (q / 2 % m) ≡ q % (2 * m)
low_digits q m h = grind arith

pub power_pos : (n : ℕ) → 0 < 2 ^ n
power_pos zero = omega arith
power_pos (suc n) = omega (arith, power_pos n)

next_power : (raw i : ℕ) → raw / 2 ^ suc i ≡ raw / 2 ^ i / 2
next_power raw i = ap (λ k. raw / k) (pow-suc 2 i) ∙ sym (div-div-eq-div-mul raw (2 ^ i) 2)

extended :
    (raw : ℕ)
    → raw / 2 ^ 0 % 2 ^ 18 + 2 ^ 18 * (if bit raw 17 then 0x3FFF else 0)
      ≡ sign_extend (raw % 2 ^ 18)
extended raw = ground arith

value-append : (xs ys : List Bool) → value (xs ++ ys) ≡ value xs + 2 ^ length xs * value ys
value-append [] ys = omega arith
value-append (x ∷ xs) ys = grind (arith, value-append xs ys)

value-replicate : (b : Bool) → value (replicate 14 b) ≡ (if b then 0x3FFF else 0)
value-replicate true = refl
value-replicate false = refl

module _ (bus : BusLogic) (laws : BusLaws bus) where
  length-wires : (raw i n : ℕ) → length (wires bus raw i n) ≡ n
  unfolding wires
  length-wires raw i zero = refl
  length-wires raw i (suc n) = ap suc (length-wires raw (suc i) n)

  value-wires : (raw i n : ℕ) → value (wires bus raw i n) ≡ raw / 2 ^ i % 2 ^ n
  unfolding wires
  value-wires raw i zero = omega arith
  value-wires raw i (suc n) =
      ap₂ (λ a b. a + 2 * b) (ap one_if (laws.wire_is_bit raw i) ∙ digit_of (raw / 2 ^ i))
        (value-wires raw (suc i) n ∙ ap (λ q. q % 2 ^ n) (next_power raw i))
      ∙ low_digits (raw / 2 ^ i) (2 ^ n) (power_pos n)
      ∙ ap (λ k. raw / 2 ^ i % k) (grind arith)

  read_wires : (raw i n : ℕ) → bus.read_value (wires bus raw i n) ≡ raw / 2 ^ i % 2 ^ n
  read_wires raw i n = laws.read_value_is (wires bus raw i n) ∙ value-wires raw i n

  pub opcode_lem : (raw : ℕ) → opcode bus raw ≡ opcode_of (raw / 2 ^ 26 % 64)
  unfolding opcode
  opcode_lem raw = ap opcode_of (read_wires raw 26 6)

  pub rd_lem : (raw : ℕ) → rd bus raw ≡ raw / 2 ^ 22 % 16
  unfolding rd
  rd_lem raw = read_wires raw 22 4

  pub rs1_lem : (raw : ℕ) → rs1 bus raw ≡ raw / 2 ^ 18 % 16
  unfolding rs1
  rs1_lem raw = read_wires raw 18 4

  pub rs2_lem : (raw : ℕ) → rs2 bus raw ≡ raw / 2 ^ 14 % 16
  unfolding rs2
  rs2_lem raw = read_wires raw 14 4

  pub immediate_lem : (raw : ℕ) → immediate bus raw ≡ sign_extend (raw % 2 ^ 18)
  unfolding immediate
  immediate_lem raw =
      let sign = replicate 14 (bus.wire raw 17) in
      laws.read_value_is (wires bus raw 0 18 ++ sign)
      ∙ value-append (wires bus raw 0 18) sign
      ∙ ap₂ (λ a b. a + b) (value-wires raw 0 18)
          (ap₂ (λ n v. 2 ^ n * v) (length-wires raw 0 18)
            (value-replicate (bus.wire raw 17)
              ∙ ap (λ b. if b then 0x3FFF else 0) (laws.wire_is_bit raw 17)))
      ∙ extended raw
