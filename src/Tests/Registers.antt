-- ===== src/Tests/Registers.antt =====
-- The theorems on registers and the bit timing at concrete inputs.
use mcan.Base.{◌%◌, ◌^◌, ◌≡◌, refl, true, arith, none, some}
use mcan.Config.{
  BitTiming, check, contains, prescaler, ok, nominal_bit_timing_ranges, time_quanta_per_bit,
}
use mcan.Config.Prescaler.{quanta, prescaler-exact}
use Prim.Native.String.{String}
use text.Mathlib.Text.{◌==◌ as str_eq}
use mcan.Base.{subst, if◌then◌else◌, ◌≢◌}
use mcan.Reg.Block.{nbtp}
use mcan.Reg.Fields.Defs.{Reader, read_field, write_field, read, write, lookup}
use mcan.Reg.Fields.Table.{readers}
use mcan.Base.{some, false}
use mcan.Bits.{bit_not}
use mcan.Reg.Field.{mask}
use mcan.Reg.Block.{gfc, psr}
use mcan.Reg.Fields.Variants.Defs.{variant_of, write_variant, is_variant, found, unreachable}
use mcan.Reg.Fields.Variants.Tables.{lec_select, anfs_select}
use mcan.Reg.Fields.Variants.Laws.{variant_of-reachable, write_variant-variant_of}
use mcan.Reg.Fields.Agree.{read-write}
use mcan.Tests.Fixtures.{hertz}

-- 500 kbit/s with 16 time quanta per bit, from 40 MHz.
abbrev timing : BitTiming hertz
timing = record { sjw = 4; phase_seg_1 = 11; phase_seg_2 = 4; bitrate = 500_000 }

timing-check : check timing nominal_bit_timing_ranges ≡ none
unfolding check contains time_quanta_per_bit
timing-check = refl

five : contains nominal_bit_timing_ranges.prescaler 5 ≡ true
unfolding contains
five = refl

timing-quanta : quanta timing 40_000_000 nominal_bit_timing_ranges ≡ 8_000_000
unfolding time_quanta_per_bit
timing-quanta = refl

prescaler-exact_example : prescaler timing 40_000_000 nominal_bit_timing_ranges ≡ ok 5
prescaler-exact_example =
    prescaler-exact timing 40_000_000 nominal_bit_timing_ranges 5 (omega arith) timing-check
      (omega (arith, timing-quanta)) (omega (arith, timing-quanta)) (omega (arith, timing-quanta))
      five

abbrev nbrp : String
nbrp = "nbrp"

nbrp_apart : nbrp ≢ "nsjw"
nbrp_apart e = subst (λ (x : String). (if str_eq "nbrp" x then Unit {0} else ⊥)) e tt

-- The prescaler of NBTP, beside its jump width.
read-write_example :
    (rd : Reader) × (lookup "nbrp" (readers nbtp) ≡ some rd)
    × (read rd (write (write_field 9 16) 0x3ff 0x0600_0a03) ≡ 0x3ff % 2 ^ 9)
    × (read (read_field 25 0x7f) (write (write_field 9 16) 0x3ff 0x0600_0a03)
        ≡ read (read_field 25 0x7f) 0x0600_0a03)
read-write_example =
    read-write nbtp "nbrp" "nsjw" (write_field 9 16) (read_field 25 0x7f) 0x3ff 0x0600_0a03 refl
      refl nbrp_apart (omega arith)

variant_of-reachable_example : variant_of lec_select (read (read_field 0 7) 0x0707) ≢ unreachable
variant_of-reachable_example =
    variant_of-reachable psr "lec" lec_select (read_field 0 7) 0x0707 refl refl

reject_written : write_variant anfs_select (write_field 2 4) "reject" 0 ≡ some 32
unfolding write_variant write bit_not mask
reject_written = refl

-- Frames of standard identifiers that match no filter are rejected.
write_variant-variant_of_example :
    (rd : Reader) × (lookup "anfs" (readers gfc) ≡ some rd)
    × (variant_of anfs_select (read rd 32) ≡ found "REJECT")
    × (is_variant anfs_select "rxf1" (read rd 32) ≡ some false)
write_variant-variant_of_example =
    write_variant-variant_of gfc "anfs" "reject" "REJECT" "rxf1" "RXF1" anfs_select
      (write_field 2 4) 0 32 refl refl refl refl reject_written (omega arith)
