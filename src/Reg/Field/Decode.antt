-- ===== src/Reg/Field/Decode.antt =====
-- Several fields of a word, written one after the other, and what each of them reads afterwards.
use mcan.Base.{
  ℕ, ◌+◌, ◌-◌, ◌%◌, ◌^◌, ◌<◌, ◌≤◌, ◌≡◌, refl, Bool, true, not, ◌&&◌, ◌||◌, leb, ◌==◌, if◌then◌else◌,
  List, [], ◌∷◌, arith, inl, inr, Bool-cases, ◌∙◌, ◌⊎◌, ap, sym, ◌/◌,
}
use mcan.Bits.{
  bit_not, u32, ◌<<<◌, ◌>>>◌, test_bit-shr, test_bit-u32, bit_and-pow, bits_ext, bit_or-lt,
  bit_and-lt, test_bit, test_bit-bit_or, test_bit-bit_and, test_bit-bit_not, test_bit-pow, one-shl,
  test_bit-zero,
}
use mcan.Reg.Field.Defs.{mask, field_bits, field_reader, set_bit, clear_bit, bit_reader}
use mcan.Reg.Field.Laws.{
  field_bits-lt, test_bit-field_bits, field_reader-field_bits, field_reader-field_bits_other,
}

-- A write of a field: its width, its offset and the value.
abbrev pub FieldWrite : Type 0
FieldWrite = ℕ × ℕ × ℕ

-- The write at the head is the last one.
abbrev pub write_fields : List FieldWrite → ℕ → ℕ
write_fields [] bits = bits
write_fields ((wi, of, v) ∷ ws) bits = field_bits wi of v (write_fields ws bits)

abbrev pub beside : ℕ → ℕ → ℕ → ℕ → Bool
beside wi of wi' of' = leb (of + wi) of' || leb (of' + wi') of

abbrev pub is_same : ℕ → ℕ → ℕ → ℕ → Bool
is_same wi of wi' of' = wi == wi' && of == of'

-- Every write up to the last one to the field is of a field beside it.
abbrev pub is_clear : ℕ → ℕ → List FieldWrite → Bool
is_clear wi of [] = leb (wi + of) 32
is_clear wi of ((wi', of', v) ∷ ws) =
    leb (wi + of) 32
    && leb (wi' + of') 32
    && (is_same wi of wi' of' || (beside wi' of' wi of && is_clear wi of ws))

-- What the field is in the end: what was written to it last, or what it was.
abbrev pub last_value : ℕ → ℕ → List FieldWrite → ℕ → ℕ
last_value wi of [] bits = field_reader of (mask wi) bits
last_value wi of ((wi', of', v) ∷ ws) bits =
    if is_same wi of wi' of' then v % 2 ^ wi else last_value wi of ws bits

pub write_fields-lt :
    (ws : List FieldWrite) (bits : ℕ) → bits < 2 ^ 32 → write_fields ws bits < 2 ^ 32
write_fields-lt [] bits fits = fits
write_fields-lt ((wi, of, v) ∷ ws) bits fits =
    field_bits-lt wi of v (write_fields ws bits) (write_fields-lt ws bits fits)

pub beside-apart :
    (wi of wi' of' : ℕ) → beside wi of wi' of' ≡ true → (of + wi ≤ of') ⊎ (of' + wi' ≤ of)
beside-apart wi of wi' of' h = elim (Bool-cases (leb (of + wi) of')) [
  | inl below ↦ inl (ground arith)
  | inr above ↦ inr (ground (arith, above, h))
]

pub field_reader-write_fields :
    (wi of : ℕ) (ws : List FieldWrite) (bits : ℕ)
    → bits < 2 ^ 32
    → is_clear wi of ws ≡ true
    → field_reader of (mask wi) (write_fields ws bits) ≡ last_value wi of ws bits
field_reader-write_fields wi of [] bits fits clear = refl
field_reader-write_fields wi of ((wi', of', v) ∷ ws) bits fits clear =
    let low = write_fields-lt ws bits fits in
    elim (Bool-cases (is_same wi of wi' of')) [
      | inl same ↦
          let e : wi' ≡ wi = ground (arith, same) in
          let f : of' ≡ of = ground (arith, same) in
          rw same (
            ap (λ (a : ℕ). field_reader of (mask wi) (field_bits a of' v (write_fields ws bits))) e
            ∙ (ap (λ (o : ℕ). field_reader of (mask wi) (field_bits wi o v (write_fields ws bits)))
                  f
                ∙ field_reader-field_bits wi of v (write_fields ws bits) (ground (arith, clear))
                    low))
      | inr other ↦ rw other (
          field_reader-field_bits_other wi' of' v (write_fields ws bits) wi of
            (ground (arith, clear, other)) (ground (arith, clear, other)) low
            (beside-apart wi' of' wi of (ground (arith, clear, other)))
          ∙ field_reader-write_fields wi of ws bits fits (ground (arith, clear, other)))
    ]

-- The same for a field of one bit that is read as a flag.
pub bit_reader-write_fields :
    (of : ℕ) (ws : List FieldWrite) (bits : ℕ)
    → bits < 2 ^ 32
    → is_clear 1 of ws ≡ true
    → bit_reader of (write_fields ws bits) ≡ not (last_value 1 of ws bits == 0)
unfolding bit_reader field_reader mask
bit_reader-write_fields of ws bits fits clear =
    ap (λ (n : ℕ). not (n == 0)) (field_reader-write_fields 1 of ws bits fits clear)

abbrev pub flag : Bool → ℕ
flag b = if b then 1 else 0

pub flag_lem : (b : Bool) → not (flag b % 2 ^ 1 == 0) ≡ b
flag_lem b = ground arith

-- `set_bit` and `clear_bit` write a field of one bit.
pub set_bit-field_bits :
    (of bits : ℕ) → of < 32 → bits < 2 ^ 32 → set_bit of bits ≡ field_bits 1 of 1 bits
unfolding set_bit
set_bit-field_bits of bits low fits =
    bits_ext 32 _ _ (bit_or-lt 32 bits (1 <<< of) fits (omega arith))
      (field_bits-lt 1 of 1 bits fits)
      λ i small. ground (
        arith,
        test_bit-bit_or i bits (1 <<< of),
        ap (λ (w : ℕ). test_bit w i) (one-shl of low),
        test_bit-pow of i,
        test_bit-pow 0 (i - of),
        test_bit-field_bits 1 of 1 bits i (omega arith) fits small,
      )

pub clear_bit-field_bits :
    (of bits : ℕ) → of < 32 → bits < 2 ^ 32 → clear_bit of bits ≡ field_bits 1 of 0 bits
unfolding clear_bit
clear_bit-field_bits of bits low fits =
    bits_ext 32 _ _ (bit_and-lt 32 bits _ fits) (field_bits-lt 1 of 0 bits fits) λ i small. ground (
      arith,
      test_bit-bit_and i bits (bit_not 32 (1 <<< of)),
      test_bit-bit_not i 32 (1 <<< of) (omega arith) small,
      ap (λ (w : ℕ). test_bit w i) (one-shl of low),
      test_bit-pow of i,
      test_bit-zero (i - of),
      test_bit-field_bits 1 of 0 bits i (omega arith) fits small,
    )

pub bit_reader-test_bit : (of bits : ℕ) → bit_reader of bits ≡ test_bit bits of
unfolding bit_reader
bit_reader-test_bit of bits =
    let e : of ≡ 0 + of = omega arith in
    let odd : test_bit bits of ≡ (bits / 2 ^ of % 2 == 1) =
      ap (test_bit bits) e ∙ sym (test_bit-shr of 0 bits) in
    ground (arith, odd, bit_and-pow 0 (bits >>> of))

-- A bit of a word that is no longer than a register.
pub bit_reader-u32 : (of x : ℕ) → of < 32 → bit_reader of (u32 x) ≡ bit_reader of x
bit_reader-u32 of x low =
    bit_reader-test_bit of (u32 x) ∙ (test_bit-u32 of x low ∙ sym (bit_reader-test_bit of x))
