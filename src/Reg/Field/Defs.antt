-- ===== src/Reg/Field/Defs.antt =====
-- `mask`, `FieldWriter::bits`, `BitWriter::bit`, `set_bit`, `clear_bit` and the readers of fields.
use mcan.Base.{ℕ, ◌-◌, ◌^◌, bit_and, bit_or, Bool, if◌then◌else◌, not, ◌==◌}
use mcan.Bits.{bit_not, ◌<<<◌, ◌>>>◌}

-- `<u32>::MAX >> (32 - WI)`, the mask of the `WI` lowest bits.
unfoldable pub mask : ℕ → ℕ
mask wi = (2 ^ 32 - 1) >>> (32 - wi)

-- `FieldWriter<WI, OF>::bits` on the word that is to be written.
unfoldable pub field_bits : ℕ → ℕ → ℕ → ℕ → ℕ
field_bits wi of value bits =
    let cleared = bit_and bits (bit_not 32 (mask wi <<< of)) in
    bit_or cleared (bit_and value (mask wi) <<< of)

-- `R::field`: `(self.bits >> OF) & mask`.
unfoldable pub field_reader : ℕ → ℕ → ℕ → ℕ
field_reader of field_mask bits = bit_and (bits >>> of) field_mask

-- `BitWriter<OF>::bit`.
unfoldable pub bit : ℕ → Bool → ℕ → ℕ
bit of value bits =
    let cleared = bit_and bits (bit_not 32 (1 <<< of)) in
    bit_or cleared (bit_and (if value then 1 else 0) 1 <<< of)

unfoldable pub set_bit : ℕ → ℕ → ℕ
set_bit of bits = bit_or bits (1 <<< of)

unfoldable pub clear_bit : ℕ → ℕ → ℕ
clear_bit of bits = bit_and bits (bit_not 32 (1 <<< of))

-- `R::flag`: `((self.bits >> OF) & 1) != 0`.
unfoldable pub bit_reader : ℕ → ℕ → Bool
bit_reader of bits = not (bit_and (bits >>> of) 1 == 0)

unfoldable pub bit_is_clear : ℕ → ℕ → Bool
unfolding bit_reader
bit_is_clear of bits = not (bit_reader of bits)

unfoldable pub bit_is_set : ℕ → ℕ → Bool
unfolding bit_reader
bit_is_set of bits = bit_reader of bits

-- The proxies of bits that the hardware clears, sets or toggles: `BitWriter1C::clear_bit_by_one`,
-- `BitWriter0S::set_bit_by_zero`, and `toggle_bit` of `BitWriter1T` and of `BitWriter0T`.
unfoldable pub clear_bit_by_one : ℕ → ℕ → ℕ
clear_bit_by_one of bits = bit_or bits (1 <<< of)

unfoldable pub set_bit_by_zero : ℕ → ℕ → ℕ
set_bit_by_zero of bits = bit_and bits (bit_not 32 (1 <<< of))

unfoldable pub toggle_bit_by_one : ℕ → ℕ → ℕ
toggle_bit_by_one of bits = bit_or bits (1 <<< of)

unfoldable pub toggle_bit_by_zero : ℕ → ℕ → ℕ
toggle_bit_by_zero of bits = bit_and bits (bit_not 32 (1 <<< of))
