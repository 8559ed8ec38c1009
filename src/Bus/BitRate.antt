-- ===== src/Bus/BitRate.antt =====
-- The bit rates that the peripheral derives from the registers after `apply_configuration` (mcan/src/bus.rs).
use mcan.Base.{
  ℕ, ◌+◌, ◌-◌, ◌*◌, ◌≤◌, ◌<◌, ◌^◌, ◌≡◌, refl, ◌∷◌, [], List, arith, ◌∙◌, ap, sym, subst,
}
use mcan.Bus.{
  apply_configuration, CanConfig, nbtp_bits, dbtp_bits, tscc_bits, select_u8, TimeStampSelect, zero,
  inc, ext, Timestamp,
}
use mcan.Bus.Run.{
  data_phase, applied_trace, rest_trace, mode_trace, timing_trace, apply_configuration-run, Ending,
}
use mcan.Bus.Timing.{nbtp_bits-fields, dbtp_bits-fields}
use mcan.Config.{
  Fugit, BitTiming, Mode, classic, fd, ok, contains, nominal_bit_timing_ranges,
  data_bit_timing_ranges, prescaler, time_quanta_per_bit,
}
use mcan.Config.Prescaler.{prescaler-ok}
use mcan.Message.Raw.{RawMessage}
use mcan.Reg.Block.{Register, Register-discrete, nbtp, tscc, dbtp, reset_value}
use mcan.Reg.Field.{mask, field_reader, FieldWrite, field_reader-write_fields}
use mcan.Reg.Io.{Hardware, Trace}
use mcan.Reg.Stored.{stored}
use mcan.TxBuffers.{Tx}

module _ {g : Fugit} (f_can : g.HertzU32) where
  -- With the word `w` in NBTP, or in DBTP, the clock is the bit rate of `timing` times the time quanta per bit
  -- times the prescaler, and the jump width is that of `timing`. The fields hold the values less one.
  abbrev pub HasNominalRate : BitTiming g → ℕ → Type 0
  HasNominalRate timing w =
      (g.to_hz f_can
        ≡ g.to_hz timing.bitrate
          * (1 + (field_reader 8 (mask 8) w + 1) + (field_reader 0 (mask 7) w + 1))
          * (field_reader 16 (mask 9) w + 1))
      × (field_reader 25 (mask 7) w + 1 ≡ timing.sjw)

  abbrev pub HasDataRate : BitTiming g → ℕ → Type 0
  HasDataRate timing w =
      (g.to_hz f_can
        ≡ g.to_hz timing.bitrate
          * (1 + (field_reader 8 (mask 5) w + 1) + (field_reader 4 (mask 4) w + 1))
          * (field_reader 16 (mask 5) w + 1))
      × (field_reader 0 (mask 4) w + 1 ≡ timing.sjw)

  nominal_rate :
      (timing : BitTiming g) (p bits : ℕ)
      → bits < 2 ^ 32
      → prescaler timing f_can nominal_bit_timing_ranges ≡ ok p
      → HasNominalRate timing (nbtp_bits timing p bits)
  unfolding contains time_quanta_per_bit
  nominal_rate timing p bits fits h =
      let exact = prescaler-ok timing f_can nominal_bit_timing_ranges p (omega arith) h in
      let f =
        nbtp_bits-fields timing p bits fits exact.0 (ground (arith, exact.1))
          (ground (arith, exact.1)) in
      (rw (f.1, f.2, f.3) exact.2, f.0)

  data_rate :
      (timing : BitTiming g) (p bits : ℕ)
      → bits < 2 ^ 32
      → prescaler timing f_can data_bit_timing_ranges ≡ ok p
      → HasDataRate timing (dbtp_bits timing p bits)
  unfolding contains time_quanta_per_bit
  data_rate timing p bits fits h =
      let exact = prescaler-ok timing f_can data_bit_timing_ranges p (omega arith) h in
      let f =
        dbtp_bits-fields timing p bits fits exact.0 (ground (arith, exact.1))
          (ground (arith, exact.1)) in
      (rw (f.1, f.2, f.3) exact.2, f.0)

  -- DBTP after the call, `w`, against the word before it: Classic CAN leaves it.
  abbrev pub IsDataPhase : Mode g → ℕ → ℕ → Type 0
  IsDataPhase classic w old = w ≡ old
  IsDataPhase (fd allow timing) w old = HasDataRate timing w

select-lt : (s : TimeStampSelect) → select_u8 s < 4
unfolding select_u8
select-lt zero = omega arith
select-lt inc = omega arith
select-lt ext = omega arith

tscc_fields :
    (s : Timestamp)
    → 1 ≤ s.prescaler
    → s.prescaler ≤ 16
    → (field_reader 16 (mask 4) (tscc_bits s (reset_value tscc)) + 1 ≡ s.prescaler)
      × (field_reader 0 (mask 2) (tscc_bits s (reset_value tscc)) ≡ select_u8 s.select)
unfolding tscc_bits reset_value
tscc_fields s low high =
    let ws : List FieldWrite = (4, 16, s.prescaler - 1) ∷ (2, 0, select_u8 s.select) ∷ [] in
    (
      omega (arith, field_reader-write_fields 4 16 ws 0 (omega arith) refl),
      omega (arith, field_reader-write_fields 2 0 ws 0 (omega arith) refl, select-lt s.select),
    )

module _ {g : Fugit} (hw : Hardware RawMessage) (f_can : g.HertzU32) (config : CanConfig g)
    (tx : Tx g) (t : Trace RawMessage) (start : Register → ℕ) where
  -- What a register holds after the call.
  abbrev pub after : Register → ℕ
  after r = stored r (start r) (apply_configuration hw f_can config tx t).1

  final :
      (m : Mode g) (p d : ℕ)
      → data_phase hw f_can m ≡ ok d
      → let T =
          rest_trace hw f_can config
            (mode_trace hw f_can config d m (timing_trace hw f_can config p t)) in
        (stored nbtp (start nbtp) T ≡ nbtp_bits config.nominal_timing p (reset_value nbtp))
        × (stored tscc (start tscc) T ≡ tscc_bits config.timestamp (reset_value tscc))
        × IsDataPhase f_can m (stored dbtp (start dbtp) T) (stored dbtp (start dbtp) t)
  unfolding Register-discrete reset_value
  final classic p d h = (refl, refl, refl)
  final (fd allow timing) p d h = (refl, refl, data_rate f_can timing d 0x0a33 (omega arith) h)

  -- With all prescalers in range, the nominal bit rate that the peripheral derives from NBTP and from its clock is
  -- exactly the configured one, with the configured jump width, TSCC has the timestamp's prescaler and source, and
  -- for CAN FD the same holds of the data phase and DBTP, which Classic CAN leaves as it is.
  pub apply_configuration-bit_rate :
      (p d : ℕ)
      → 1 ≤ config.timestamp.prescaler
      → config.timestamp.prescaler ≤ 16
      → prescaler config.nominal_timing f_can nominal_bit_timing_ranges ≡ ok p
      → data_phase hw f_can config.mode ≡ ok d
      → HasNominalRate f_can config.nominal_timing (after nbtp)
        × (field_reader 16 (mask 4) (after tscc) + 1 ≡ config.timestamp.prescaler)
        × (field_reader 0 (mask 2) (after tscc) ≡ select_u8 config.timestamp.select)
        × IsDataPhase f_can config.mode (after dbtp) (stored dbtp (start dbtp) t)
  unfolding reset_value
  apply_configuration-bit_rate p d low high nominal phase =
      let run = apply_configuration-run hw f_can config tx p d t low high nominal phase in
      let T = applied_trace hw f_can config p d t in
      let after_lem : (r : Register) → after r ≡ stored r (start r) T =
        λ r. ap (λ (e : Ending hw f_can config tx). stored r (start r) e.1) run in
      let words = final config.mode p d phase in
      let s = tscc_fields config.timestamp low high in
      (
        subst (HasNominalRate f_can config.nominal_timing) (sym (after_lem nbtp ∙ words.0))
            (nominal_rate f_can config.nominal_timing p 0x0600_0a03 (omega arith) nominal),
        ap (λ (w : ℕ). field_reader 16 (mask 4) w + 1) (after_lem tscc ∙ words.1) ∙ s.0,
        ap (field_reader 0 (mask 2)) (after_lem tscc ∙ words.1) ∙ s.1,
        subst (λ (w : ℕ). IsDataPhase f_can config.mode w (stored dbtp (start dbtp) t))
            (sym (after_lem dbtp)) words.2,
      )
