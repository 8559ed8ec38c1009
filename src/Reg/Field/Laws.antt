-- ===== src/Reg/Field/Laws.antt =====
-- What the field writers do to each bit of a word, and that they undo nothing else.
use mcan.Base.{
  ℕ, ◌+◌, ◌-◌, ◌*◌, ◌/◌, ◌%◌, ◌^◌, ◌≤◌, ◌<◌, ◌≡◌, bit_and, ◌&&◌, ltb, leb, if◌then◌else◌, ◌==◌, ◌⊎◌,
  arith, dec_lt, ap, sym, ◌∙◌,
}
use mcan.Bits.{
  bit_not, ◌<<<◌, ◌>>>◌, test_bit, test_bit-bit_and, test_bit-bit_or, test_bit-bit_not,
  test_bit-shr, test_bit-mod, test_bit-mul_pow, test_bit-high, test_bit-zero, bits_ext, pow-le,
  bit_and-ones, test_bit-ones, mod_pow-lt, bit_or-lt, bit_and-lt,
}
use native.Mathlib.Nat.{div-le_self}
use mcan.Reg.Field.Defs.{mask, field_bits, field_reader, bit_reader}

pub test_bit-mask : (wi i : ℕ) → wi ≤ 32 → test_bit (mask wi) i ≡ ltb i wi
unfolding mask
test_bit-mask wi i h =
    rw (test_bit-shr (32 - wi) i (2 ^ 32 - 1)) (ground (arith, test_bit-ones 32 (i + (32 - wi))))

pub test_bit-shl :
    (k i x : ℕ) → test_bit (x <<< k) i ≡ (ltb i 32 && (leb k i && test_bit x (i - k)))
test_bit-shl k i x = rw (test_bit-mod 32 i (x * 2 ^ k), test_bit-mul_pow k i x)

pub mask-lt : (wi : ℕ) → mask wi < 2 ^ 32
unfolding mask
mask-lt wi = omega (arith, div-le_self (2 ^ 32 - 1) (2 ^ (32 - wi)))

-- Each bit of the word after `FieldWriter::bits`: within the field it is the value's, elsewhere it
-- is as before.
pub test_bit-field_bits :
    (wi of value bits i : ℕ)
    → wi ≤ 32
    → bits < 2 ^ 32
    → i < 32
    → test_bit (field_bits wi of value bits) i
      ≡ (if leb of i && ltb i (of + wi) then test_bit value (i - of) else test_bit bits i)
unfolding field_bits
test_bit-field_bits wi of value bits i w fits low =
    rw
      (
        test_bit-bit_or i (bit_and bits (bit_not 32 (mask wi <<< of)))
            (bit_and value (mask wi) <<< of),
        test_bit-bit_and i bits (bit_not 32 (mask wi <<< of)),
        test_bit-bit_not i 32 (mask wi <<< of) (omega arith) low,
        test_bit-shl of i (mask wi),
        test_bit-shl of i (bit_and value (mask wi)),
        test_bit-bit_and (i - of) value (mask wi),
        test_bit-mask wi (i - of) w,
      )
      (ground arith)

pub field_bits-lt : (wi of value bits : ℕ) → bits < 2 ^ 32 → field_bits wi of value bits < 2 ^ 32
unfolding field_bits
field_bits-lt wi of value bits fits = bit_or-lt 32 _ _ (bit_and-lt 32 bits _ fits) (omega arith)

-- Reading a field, bit by bit.
test_bit-field_reader :
    (wi of bits i : ℕ)
    → wi ≤ 32
    → test_bit (field_reader of (mask wi) bits) i ≡ (test_bit bits (i + of) && ltb i wi)
unfolding field_reader
test_bit-field_reader wi of bits i w =
    rw (test_bit-bit_and i (bits >>> of) (mask wi), test_bit-shr of i bits, test_bit-mask wi i w)

field_reader-lt : (of k bits : ℕ) → bits < 2 ^ 32 → field_reader of k bits < 2 ^ 32
unfolding field_reader
field_reader-lt of k bits fits =
    bit_and-lt 32 (bits >>> of) k (omega (arith, div-le_self bits (2 ^ of)))

-- A field reads back the value that was written, cut to its width.
pub field_reader-field_bits :
    (wi of value bits : ℕ)
    → wi + of ≤ 32
    → bits < 2 ^ 32
    → field_reader of (mask wi) (field_bits wi of value bits) ≡ value % 2 ^ wi
field_reader-field_bits wi of value bits w fits =
    bits_ext 32 _ _ (field_reader-lt of _ _ (field_bits-lt wi of value bits fits))
      (omega (arith, mod_pow-lt value wi 32 (omega arith)))
      λ i low.
        rw
          (
            test_bit-field_reader wi of (field_bits wi of value bits) i (omega arith),
            test_bit-mod wi i value,
          )
          (same i)
  where
    same :
        (i : ℕ)
        → (test_bit (field_bits wi of value bits) (i + of) && ltb i wi)
          ≡ (ltb i wi && test_bit value i)
    same i = elim (dec_lt i wi) [
      | yes h ↦
          let e : i + of - of ≡ i = omega arith in
          ground (
            arith,
            test_bit-field_bits wi of value bits (i + of) (omega arith) fits (omega arith),
            ap (test_bit value) e,
          )
      | no h ↦ ground arith
    ]

-- A field keeps its value when one beside it is written.
pub field_reader-field_bits_other :
    (wi of value bits wi' of' : ℕ)
    → wi + of ≤ 32
    → wi' + of' ≤ 32
    → bits < 2 ^ 32
    → (of + wi ≤ of') ⊎ (of' + wi' ≤ of)
    → field_reader of' (mask wi') (field_bits wi of value bits) ≡ field_reader of' (mask wi') bits
field_reader-field_bits_other wi of value bits wi' of' w w' fits apart =
    bits_ext 32 _ _ (field_reader-lt of' _ _ (field_bits-lt wi of value bits fits))
      (field_reader-lt of' _ _ fits)
      λ i low.
        rw
          (
            test_bit-field_reader wi' of' (field_bits wi of value bits) i (omega arith),
            test_bit-field_reader wi' of' bits i (omega arith),
          )
          (same i)
  where
    same :
        (i : ℕ)
        → (test_bit (field_bits wi of value bits) (i + of') && ltb i wi')
          ≡ (test_bit bits (i + of') && ltb i wi')
    same i = elim (dec_lt i wi') [
      | yes h ↦
          ground
            (arith, test_bit-field_bits wi of value bits (i + of') (omega arith) fits (omega arith))
      | no h ↦ ground arith
    ]

-- A reader of one bit, and a reader of a field of `wi` bits.
pub bit_reader_lem : (of bits : ℕ) → bits < 2 ^ 32 → bit_reader of bits ≡ test_bit bits of
unfolding bit_reader
bit_reader_lem of bits fits =
    let small : bits / 2 ^ of < 2 ^ 32 = omega (arith, div-le_self bits (2 ^ of)) in
    let e : of ≡ 0 + of = omega arith in
    let odd : test_bit bits of ≡ (bits / 2 ^ of % 2 == 1) =
      ap (test_bit bits) e ∙ sym (test_bit-shr of 0 bits) in
    rw (bit_and-ones 1 (bits / 2 ^ of) (omega arith) small, odd) (ground arith)

pub field_reader_lem :
    (of wi bits : ℕ)
    → bits < 2 ^ 32
    → wi ≤ 32
    → field_reader of (2 ^ wi - 1) bits ≡ bits / 2 ^ of % 2 ^ wi
unfolding field_reader
field_reader_lem of wi bits fits small =
    bit_and-ones wi (bits / 2 ^ of) small (omega (arith, div-le_self bits (2 ^ of)))

-- A value in range that is written to the lowest field of a word of zeroes is the word.
pub field_bits-lowest : (wi value : ℕ) → wi ≤ 32 → value < 2 ^ wi → field_bits wi 0 value 0 ≡ value
field_bits-lowest wi value small fits =
    let wide : value < 2 ^ 32 = omega (arith, pow-le wi 32 small) in
    bits_ext 32 _ _ (field_bits-lt wi 0 value 0 (omega arith)) wide λ i low. elim (dec_lt i wi) [
      | yes h ↦ ground (arith, test_bit-field_bits wi 0 value 0 i small (omega arith) low)
      | no h ↦ ground (
        arith,
        test_bit-field_bits wi 0 value 0 i small (omega arith) low,
        test_bit-high i wi value fits (omega arith),
        test_bit-zero i,
      )
    ]
