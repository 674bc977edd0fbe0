-- ===== src/Decode/RoundTrip.antt =====
-- The decoder against the documented layout of the instruction word.
use cpu_cpp.Base.{ℕ, ◌+◌, ◌*◌, ◌/◌, ◌%◌, ◌^◌, ◌<◌, ◌≡◌, refl, sym, ap, ◌∙◌, arith}
use cpu_cpp.Isa.{Opcode, InstructionFormat, DecodedInstruction}
use cpu_cpp.Decode.Instruction
use cpu_cpp.Decode.Instruction.{BusLogic, opcode_of}
use cpu_cpp.Decode.Decoder
use cpu_cpp.Decode.Decoder.{format_of}
use cpu_cpp.Decode.Fields
use cpu_cpp.Decode.Fields.{BusLaws, sign_extend}
use cpu_cpp.Decode.Bits.{sign_extend26, jump_immediate_lem}

-- The encoding of each enumerator.
abbrev pub number_of : Opcode → ℕ
number_of Opcode.nop = 0
number_of Opcode.add = 1
number_of Opcode.sub = 2
number_of Opcode.and = 3
number_of Opcode.or = 4
number_of Opcode.xor = 5
number_of Opcode.not = 6
number_of Opcode.li = 7
number_of Opcode.addi = 8
number_of Opcode.lw = 9
number_of Opcode.sw = 10
number_of Opcode.beq = 11
number_of Opcode.bne = 12
number_of Opcode.j = 13
number_of Opcode.halt = 14
number_of (Opcode.unnamed n) = n

-- A word from its opcode, the fields at bits 25..22 and 21..18, and the low 18 bits.
abbrev word : ℕ → ℕ → ℕ → ℕ → ℕ
word opcode high middle low = opcode * 2 ^ 26 + high * 2 ^ 22 + middle * 2 ^ 18 + low

-- The layout of each format.
abbrev encode_as : InstructionFormat → DecodedInstruction → ℕ
encode_as InstructionFormat.r_type d = word (number_of d.opcode) d.rd d.rs1 (d.rs2 * 2 ^ 14)
encode_as InstructionFormat.i_type d = word (number_of d.opcode) d.rd d.rs1 (d.immediate % 2 ^ 18)
encode_as InstructionFormat.s_type d = word (number_of d.opcode) d.rs2 d.rs1 (d.immediate % 2 ^ 18)
encode_as InstructionFormat.b_type d = word (number_of d.opcode) d.rs1 d.rs2 (d.immediate % 2 ^ 18)
encode_as InstructionFormat.j_type d = number_of d.opcode * 2 ^ 26 + d.immediate % 2 ^ 26

abbrev pub encode : DecodedInstruction → ℕ
encode d = encode_as d.format d

-- What a format has no place for is zero, and the immediate is the sign extension of its field, of
-- 18 bits or, for a jump, 26.
abbrev Fits : InstructionFormat → DecodedInstruction → Type 0
Fits InstructionFormat.r_type d = d.immediate ≡ 0
Fits InstructionFormat.i_type d = (d.rs2 ≡ 0) × (d.immediate ≡ sign_extend (d.immediate % 2 ^ 18))
Fits InstructionFormat.s_type d = (d.rd ≡ 0) × (d.immediate ≡ sign_extend (d.immediate % 2 ^ 18))
Fits InstructionFormat.b_type d = (d.rd ≡ 0) × (d.immediate ≡ sign_extend (d.immediate % 2 ^ 18))
Fits InstructionFormat.j_type d =
    (d.rd ≡ 0) × (d.rs1 ≡ 0) × (d.rs2 ≡ 0) × (d.immediate ≡ sign_extend26 (d.immediate % 2 ^ 26))

pub record IsEncodable (d : DecodedInstruction) : Type 0 where
  pub named : opcode_of (number_of d.opcode) ≡ d.opcode
  pub six_bits : number_of d.opcode < 64
  pub formatted : d.format ≡ format_of d.opcode
  pub rd_small : d.rd < 16
  pub rs1_small : d.rs1 < 16
  pub rs2_small : d.rs2 < 16
  pub fits : Fits d.format d

-- The fields of a word, one by one.
word-opcode : (n h m l : ℕ) → n < 64 → h < 16 → m < 16 → l < 2 ^ 18 → word n h m l / 2 ^ 26 % 64 ≡ n
word-opcode n h m l p q r s = omega arith

word-high : (n h m l : ℕ) → h < 16 → m < 16 → l < 2 ^ 18 → word n h m l / 2 ^ 22 % 16 ≡ h
word-high n h m l q r s = omega arith

word-middle : (n h m l : ℕ) → m < 16 → l < 2 ^ 18 → word n h m l / 2 ^ 18 % 16 ≡ m
word-middle n h m l r s = omega arith

word-low : (n h m l : ℕ) → l < 2 ^ 18 → word n h m l % 2 ^ 18 ≡ l
word-low n h m l s = omega arith

word-third : (n h m x : ℕ) → x < 16 → word n h m (x * 2 ^ 14) / 2 ^ 14 % 16 ≡ x
word-third n h m x s = omega arith

same_fields :
    {o : Opcode} {f : InstructionFormat} {a b c v : ℕ} (d : DecodedInstruction)
    → o ≡ d.opcode
    → f ≡ d.format
    → a ≡ d.rd
    → b ≡ d.rs1
    → c ≡ d.rs2
    → v ≡ d.immediate
    → record { opcode = o; format = f; rd = a; rs1 = b; rs2 = c; immediate = v } ≡ d
same_fields d po pf pa pb pc pv = λ i. record {
  opcode = po i;
  format = pf i;
  rd = pa i;
  rs1 = pb i;
  rs2 = pc i;
  immediate = pv i;
}

module _ (bus : BusLogic) (laws : BusLaws bus) where
  -- What `decode` does after the opcode.
  abbrev decode_rest : ℕ → Opcode → DecodedInstruction
  decode_rest raw opcode = Decoder.fields_of bus (format_of opcode) raw (record {
    opcode = opcode;
    format = format_of opcode;
    rd = 0;
    rs1 = 0;
    rs2 = 0;
    immediate = 0;
  })

  abbrev blank_of : DecodedInstruction → DecodedInstruction
  blank_of d = record d { rd = 0; rs1 = 0; rs2 = 0; immediate = 0 }

  module _ (d : DecodedInstruction) (h : IsEncodable d) where
    opcode-word :
        (a b l : ℕ)
        → a < 16
        → b < 16
        → l < 2 ^ 18
        → Instruction.opcode bus (word (number_of d.opcode) a b l) ≡ d.opcode
    opcode-word a b l p q r =
        Fields.opcode_lem bus laws (word (number_of d.opcode) a b l)
        ∙ ap opcode_of (word-opcode (number_of d.opcode) a b l h.six_bits p q r)
        ∙ h.named

    rd-word : (n a b l : ℕ) → a < 16 → b < 16 → l < 2 ^ 18 → Instruction.rd bus (word n a b l) ≡ a
    rd-word n a b l p q r = Fields.rd_lem bus laws (word n a b l) ∙ word-high n a b l p q r

    rs1-word : (n a b l : ℕ) → b < 16 → l < 2 ^ 18 → Instruction.rs1 bus (word n a b l) ≡ b
    rs1-word n a b l q r = Fields.rs1_lem bus laws (word n a b l) ∙ word-middle n a b l q r

    immediate-word :
        (n a b : ℕ)
        → d.immediate ≡ sign_extend (d.immediate % 2 ^ 18)
        → Instruction.immediate bus (word n a b (d.immediate % 2 ^ 18)) ≡ d.immediate
    immediate-word n a b x =
        Fields.immediate_lem bus laws (word n a b (d.immediate % 2 ^ 18))
        ∙ ap sign_extend (word-low n a b (d.immediate % 2 ^ 18) (omega arith))
        ∙ sym x

    fields_encode :
        (f : InstructionFormat)
        → Fits f d
        → (Decoder.fields_of bus f (encode_as f d) (blank_of d) ≡ d)
          × (Instruction.opcode bus (encode_as f d) ≡ d.opcode)
    unfolding Decoder.fields_of
    fields_encode InstructionFormat.r_type u =
        let n = number_of d.opcode in
        let l = d.rs2 * 2 ^ 14 in
        let small : l < 2 ^ 18 = omega (arith, h.rs2_small) in
        (
          same_fields d refl refl (rd-word n d.rd d.rs1 l h.rd_small h.rs1_small small)
              (rs1-word n d.rd d.rs1 l h.rs1_small small)
              (Fields.rs2_lem bus laws (word n d.rd d.rs1 l)
                ∙ word-third n d.rd d.rs1 d.rs2 h.rs2_small)
              (sym u),
          opcode-word d.rd d.rs1 l h.rd_small h.rs1_small small,
        )
    fields_encode InstructionFormat.i_type u =
        let n = number_of d.opcode in
        let l = d.immediate % 2 ^ 18 in
        let small : l < 2 ^ 18 = omega arith in
        (
          same_fields d refl refl (rd-word n d.rd d.rs1 l h.rd_small h.rs1_small small)
              (rs1-word n d.rd d.rs1 l h.rs1_small small) (sym u.0)
              (immediate-word n d.rd d.rs1 u.1),
          opcode-word d.rd d.rs1 l h.rd_small h.rs1_small small,
        )
    fields_encode InstructionFormat.s_type u =
        let n = number_of d.opcode in
        let l = d.immediate % 2 ^ 18 in
        let small : l < 2 ^ 18 = omega arith in
        (
          same_fields d refl refl (sym u.0) (rs1-word n d.rs2 d.rs1 l h.rs1_small small)
              (rd-word n d.rs2 d.rs1 l h.rs2_small h.rs1_small small)
              (immediate-word n d.rs2 d.rs1 u.1),
          opcode-word d.rs2 d.rs1 l h.rs2_small h.rs1_small small,
        )
    fields_encode InstructionFormat.b_type u =
        let n = number_of d.opcode in
        let l = d.immediate % 2 ^ 18 in
        let small : l < 2 ^ 18 = omega arith in
        (
          same_fields d refl refl (sym u.0) (rd-word n d.rs1 d.rs2 l h.rs1_small h.rs2_small small)
              (rs1-word n d.rs1 d.rs2 l h.rs2_small small) (immediate-word n d.rs1 d.rs2 u.1),
          opcode-word d.rs1 d.rs2 l h.rs1_small h.rs2_small small,
        )
    fields_encode InstructionFormat.j_type u =
        let n = number_of d.opcode in
        let x = d.immediate % 2 ^ 26 in
        let high : (n * 2 ^ 26 + x) / 2 ^ 26 % 64 ≡ n = omega (arith, h.six_bits) in
        let low : (n * 2 ^ 26 + x) % 2 ^ 26 ≡ x = omega arith in
        (
          same_fields d refl refl (sym u.0) (sym u.1) (sym u.2)
              (jump_immediate_lem (n * 2 ^ 26 + x) ∙ ap sign_extend26 low ∙ sym u.3),
          Fields.opcode_lem bus laws (n * 2 ^ 26 + x) ∙ ap opcode_of high ∙ h.named,
        )

  -- Under the bus's laws, decoding the word that the documented layout of its format gives an
  -- instruction gives the instruction back: opcode, format, registers and immediate, for every format
  -- and opcode number below 64, four-bit registers and an immediate that fits its field.
  pub decode-encode : (d : DecodedInstruction) → IsEncodable d → Decoder.decode bus (encode d) ≡ d
  unfolding Decoder.decode
  decode-encode d h =
      let (fields, opcode) = fields_encode d h d.format h.fits in
      ap (decode_rest (encode d)) opcode
      ∙ ap (λ f. Decoder.fields_of bus f (encode d) (record (blank_of d) { format = f }))
          (sym h.formatted)
      ∙ fields
