-- ===== src/Bus/Timing.antt =====
-- The bit timing that the registers get (mcan/src/bus.rs).
use mcan.Base.{
  ℕ, ◌+◌, ◌-◌, ◌^◌, ◌≤◌, ◌<◌, ◌≡◌, refl, if◌then◌else◌, leb, ◌&&◌, none, arith, List, [], ◌∷◌,
}
use mcan.Bits.{u8}
use mcan.Bus.{
  nbtp_bits, dbtp_bits, apply_configuration, CanConfig, bit_timing, invalid_time_stamp_prescaler,
  failed,
}
use mcan.Config.{
  Fugit, BitTiming, BitTimingError, err, check, contains, nominal_bit_timing_ranges,
  data_bit_timing_ranges, prescaler,
}
use mcan.Message.Raw.{RawMessage}
use mcan.Reg.Field.{mask, field_reader, FieldWrite, field_reader-write_fields}
use mcan.Reg.Io.{Hardware, Trace, done}
use mcan.TxBuffers.{Tx}

module _ {g : Fugit} (timing : BitTiming g) where
  nominal_bounds :
      check timing nominal_bit_timing_ranges ≡ none
      → (1 ≤ timing.sjw)
        × (timing.sjw ≤ 128)
        × (2 ≤ timing.phase_seg_1)
        × (timing.phase_seg_1 ≤ 256)
        × (2 ≤ timing.phase_seg_2)
        × (timing.phase_seg_2 ≤ 128)
  unfolding check contains
  nominal_bounds h = ground arith

  -- For a nominal timing that passes the check and a prescaler from 1 to 512, the word for NBTP decodes to the
  -- timing: each of the fields NSJW, NTSEG1, NTSEG2 and NBRP plus one is the parameter.
  pub nbtp_bits-fields :
      (p bits : ℕ)
      → bits < 2 ^ 32
      → check timing nominal_bit_timing_ranges ≡ none
      → 1 ≤ p
      → p ≤ 512
      → (field_reader 25 (mask 7) (nbtp_bits timing p bits) + 1 ≡ timing.sjw)
        × (field_reader 8 (mask 8) (nbtp_bits timing p bits) + 1 ≡ timing.phase_seg_1)
        × (field_reader 0 (mask 7) (nbtp_bits timing p bits) + 1 ≡ timing.phase_seg_2)
        × (field_reader 16 (mask 9) (nbtp_bits timing p bits) + 1 ≡ p)
  unfolding nbtp_bits
  nbtp_bits-fields p bits fits passes low high =
      let b = nominal_bounds passes in
      let ws : List FieldWrite =
        (9, 16, p - 1)
        ∷ (7, 0, timing.phase_seg_2 - 1)
        ∷ (8, 8, timing.phase_seg_1 - 1)
        ∷ (7, 25, timing.sjw - 1)
        ∷ [] in
      (
        omega (arith, field_reader-write_fields 7 25 ws bits fits refl),
        omega (arith, field_reader-write_fields 8 8 ws bits fits refl),
        omega (arith, field_reader-write_fields 7 0 ws bits fits refl),
        omega (arith, field_reader-write_fields 9 16 ws bits fits refl),
      )

  data_bounds :
      check timing data_bit_timing_ranges ≡ none
      → (1 ≤ timing.sjw)
        × (timing.sjw ≤ 16)
        × (1 ≤ timing.phase_seg_1)
        × (timing.phase_seg_1 ≤ 32)
        × (1 ≤ timing.phase_seg_2)
        × (timing.phase_seg_2 ≤ 16)
  unfolding check contains
  data_bounds h = ground arith

  -- The same for a data phase timing and a prescaler from 1 to 32 in DBTP.
  pub dbtp_bits-fields :
      (p bits : ℕ)
      → bits < 2 ^ 32
      → check timing data_bit_timing_ranges ≡ none
      → 1 ≤ p
      → p ≤ 32
      → (field_reader 0 (mask 4) (dbtp_bits timing p bits) + 1 ≡ timing.sjw)
        × (field_reader 8 (mask 5) (dbtp_bits timing p bits) + 1 ≡ timing.phase_seg_1)
        × (field_reader 4 (mask 4) (dbtp_bits timing p bits) + 1 ≡ timing.phase_seg_2)
        × (field_reader 16 (mask 5) (dbtp_bits timing p bits) + 1 ≡ p)
  unfolding dbtp_bits
  dbtp_bits-fields p bits fits passes low high =
      let b = data_bounds passes in
      let ws : List FieldWrite =
        (5, 16, u8 (p - 1))
        ∷ (4, 4, timing.phase_seg_2 - 1)
        ∷ (5, 8, timing.phase_seg_1 - 1)
        ∷ (4, 0, timing.sjw - 1)
        ∷ [] in
      (
        omega (arith, field_reader-write_fields 4 0 ws bits fits refl),
        omega (arith, field_reader-write_fields 5 8 ws bits fits refl),
        omega (arith, field_reader-write_fields 4 4 ws bits fits refl),
        omega (arith, field_reader-write_fields 5 16 ws bits fits refl),
      )

module _ {g : Fugit} (hw : Hardware RawMessage) (f_can : g.HertzU32) (config : CanConfig g)
    (tx : Tx g) where
  -- A nominal timing for which there is no prescaler makes `apply_configuration` fail before it accesses any
  -- register or changes the mode of `tx`, with the error of the timestamp prescaler if that is out of
  -- range too.
  pub apply_configuration-fails :
      (e : BitTimingError g) (t : Trace RawMessage)
      → prescaler config.nominal_timing f_can nominal_bit_timing_ranges ≡ err e
      → apply_configuration hw f_can config tx t ≡ (
        done (
          failed (
              if leb 1 config.timestamp.prescaler && leb config.timestamp.prescaler 16
              then bit_timing e
              else invalid_time_stamp_prescaler),
          tx,
        ),
        t,
      )
  unfolding apply_configuration contains
  apply_configuration-fails e t refused = ground (arith, refused)
