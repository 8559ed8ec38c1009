-- ===== src/Reg/Fields/Defs.antt =====
-- The accessors of a field: the functions of `R` and of `W` in mcan/src/reg/*.rs.
use Prim.Native.String.{String}
use text.Mathlib.Text.{◌==◌ as str_eq}
use mcan.Base.{ℕ, ◌%◌, List, [], ◌∷◌, Option, none, some, ◌==◌, if◌then◌else◌}
use mcan.Reg.Field.{field_bits, field_reader, bit, bit_reader}

-- `read_flag of` is `((self.bits >> of) & 1) != 0`, and `read_field of mask` is `(self.bits >> of) & mask`.
pub data Reader : Type 0 where
  read_flag : ℕ → Reader
  read_field : ℕ → ℕ → Reader

-- `write_flag of` is a `BitWriter` at the offset `of`, and `write_field wi of` a `FieldWriter` of `wi` bits.
pub data Writer : Type 0 where
  write_flag : ℕ → Writer
  write_field : ℕ → ℕ → Writer

-- By the names of the functions.
abbrev pub Readers : Type 0
Readers = List (String × Reader)

abbrev pub Writers : Type 0
Writers = List (String × Writer)

-- A flag as a number: 1 is `true`.
unfoldable pub read : Reader → ℕ → ℕ
unfolding bit_reader field_reader
read (read_flag of) bits = if bit_reader of bits then 1 else 0
read (read_field of mask) bits = field_reader of mask bits

unfoldable pub write : Writer → ℕ → ℕ → ℕ
unfolding bit field_bits
write (write_flag of) value bits = bit of (value % 2 == 1) bits
write (write_field wi of) value bits = field_bits wi of value bits

abbrev pub width : Writer → ℕ
width (write_flag of) = 1
width (write_field wi of) = wi

abbrev pub lookup {ℓ} : {A : Type ℓ} → String → List (String × A) → Option A
lookup name [] = none
lookup name ((n, a) ∷ rest) = if str_eq n name then some a else lookup name rest
