-- ===== src/Config.antt =====
-- Bit timing and the modes of operation (mcan/src/config.rs).
pub mod Prescaler
use mcan.Base.{
  ℕ, zero, suc, ◌+◌, ◌*◌, ◌/◌, ◌%◌, ◌^◌, ◌<◌, ◌≡◌, Bool, leb, not, ◌&&◌, if◌then◌else◌, Option,
  none, some, ◌==◌,
}
use mcan.Bits.{u16}

-- `fugit::HertzU32`, which is not code of the repository: a frequency in Hz that is a `u32`, its product
-- with a number, which panics on overflow (`none`), and the quotient of two, which panics for 0.
pub record Fugit : Type 1 where
  pub HertzU32 : Type 0
  pub to_hz : HertzU32 → ℕ
  pub mul : HertzU32 → ℕ → Option HertzU32
  pub div : HertzU32 → HertzU32 → Option ℕ
  -- The product is exact, and there is one where it fits. The quotient is of the values in Hz.
  pub mul-exact : (h q : HertzU32) (n : ℕ) → mul h n ≡ some q → to_hz q ≡ to_hz h * n
  pub mul-fits : (h : HertzU32) (n : ℕ) → to_hz h * n < 2 ^ 32 → (q : HertzU32) × (mul h n ≡ some q)
  pub div_lem : (a b : HertzU32) → 0 < to_hz b → div a b ≡ some (to_hz a / to_hz b)

-- `RangeInclusive<u32>`
pub record Range : Type 0 where
  pub first : ℕ
  pub last : ℕ

unfoldable pub contains : Range → ℕ → Bool
contains r x = leb r.first x && leb x r.last

pub record BitTimingRanges : Type 0 where
  pub sjw : Range
  pub phase_seg_1 : Range
  pub phase_seg_2 : Range
  pub time_quanta_per_bit : Range
  pub prescaler : Range

abbrev pub nominal_bit_timing_ranges : BitTimingRanges
nominal_bit_timing_ranges = record {
  sjw = record { first = 1; last = 128 };
  phase_seg_1 = record { first = 2; last = 256 };
  phase_seg_2 = record { first = 2; last = 128 };
  time_quanta_per_bit = record { first = 5; last = 385 };
  prescaler = record { first = 1; last = 512 };
}

abbrev pub data_bit_timing_ranges : BitTimingRanges
data_bit_timing_ranges = record {
  sjw = record { first = 1; last = 16 };
  phase_seg_1 = record { first = 1; last = 32 };
  phase_seg_2 = record { first = 1; last = 16 };
  time_quanta_per_bit = record { first = 3; last = 49 };
  prescaler = record { first = 1; last = 32 };
}

module _ (g : Fugit) where
  pub record BitTiming : Type 0 where
    pub sjw : ℕ
    pub phase_seg_1 : ℕ
    pub phase_seg_2 : ℕ
    pub bitrate : g.HertzU32

  pub data BitTimingError : Type 0 where
    synchronization_jump_width_out_of_range : Range → BitTimingError
    phase_seg_1_out_of_range : Range → BitTimingError
    phase_seg_2_out_of_range : Range → BitTimingError
    bit_time_out_of_range : Range → BitTimingError
    prescaler_out_of_range : Range → BitTimingError
    no_valid_prescaler : g.HertzU32 → g.HertzU32 → ℕ → BitTimingError

  -- `fd allow_bit_rate_switching data_phase_timing`
  pub data Mode : Type 0 where
    classic : Mode
    fd : Bool → BitTiming → Mode

module _ {g : Fugit} where
  -- `BitTiming::new`
  unfoldable pub new : g.HertzU32 → BitTiming g
  new bitrate = record { sjw = 0x4; phase_seg_1 = 0xb; phase_seg_2 = 0x4; bitrate = bitrate }

  unfoldable pub time_quanta_per_bit : BitTiming g → ℕ
  time_quanta_per_bit self = 1 + self.phase_seg_1 + self.phase_seg_2

  -- `check`: `none` is `Ok(())`.
  unfoldable pub check : BitTiming g → BitTimingRanges → Option (BitTimingError g)
  unfolding contains time_quanta_per_bit
  check self valid =
      if not (contains valid.sjw self.sjw)
      then some (synchronization_jump_width_out_of_range valid.sjw)
      else if not (contains valid.phase_seg_1 self.phase_seg_1)
      then some (phase_seg_1_out_of_range valid.phase_seg_1)
      else if not (contains valid.phase_seg_2 self.phase_seg_2)
      then some (phase_seg_2_out_of_range valid.phase_seg_2)
      else if not (contains valid.time_quanta_per_bit (time_quanta_per_bit self))
      then some (bit_time_out_of_range valid.time_quanta_per_bit)
      else none

-- The result of `prescaler`; `panic` is a panic of the arithmetic on `HertzU32`.
pub data Result (g : Fugit) : Type 0 where
  ok : ℕ → Result g
  err : BitTimingError g → Result g
  panic : Result g

-- `f_can.to_Hz().checked_rem(f_q.to_Hz())`
unfoldable pub checked_rem : ℕ → ℕ → Option ℕ
checked_rem a b = if b == 0 then none else some (a % b)

module _ {g : Fugit} where
  -- The branch of `prescaler` with the quotient.
  unfoldable pub in_range : BitTimingRanges → ℕ → Result g
  unfolding contains
  in_range valid prescaler =
      if not (contains valid.prescaler prescaler)
      then err (prescaler_out_of_range valid.prescaler)
      else ok (u16 prescaler)

  unfoldable pub divide : BitTiming g → g.HertzU32 → BitTimingRanges → g.HertzU32 → Result g
  unfolding checked_rem in_range time_quanta_per_bit
  divide self f_can valid f_q = elim (checked_rem (g.to_hz f_can) (g.to_hz f_q)) [
    | some zero ↦ elim (g.div f_can f_q) [
      | none ↦ panic
      | some prescaler ↦ in_range valid prescaler
    ]
    | some (suc r) ↦ err (no_valid_prescaler f_can self.bitrate (time_quanta_per_bit self))
    | none ↦ err (no_valid_prescaler f_can self.bitrate (time_quanta_per_bit self))
  ]

  unfoldable pub prescaler : BitTiming g → g.HertzU32 → BitTimingRanges → Result g
  unfolding check divide time_quanta_per_bit
  prescaler self f_can valid = elim (check self valid) [
    | some e ↦ err e
    | none ↦ elim (g.mul self.bitrate (time_quanta_per_bit self)) [
      | none ↦ panic
      | some f_q ↦ divide self f_can valid f_q
    ]
  ]
