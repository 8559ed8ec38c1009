-- ===== src/Bus/Run.antt =====
-- The accesses of `apply_configuration` (mcan/src/bus.rs) and how it ends.
use mcan.Base.{ℕ, ◌≤◌, ◌≡◌, refl, ◌∷◌, arith, ◌∙◌}
use mcan.Bus.{
  nbtp_bits, dbtp_bits, tscc_bits, rx_fifo_bits, queue_mode_bit, sanitized, apply_configuration,
  apply_mode, apply_rest, CanConfig, bit_timing, failed, applied, Applied,
}
use mcan.Config.{
  Fugit, Mode, classic, fd, BitTimingError, Result, ok, err, contains, nominal_bit_timing_ranges,
  data_bit_timing_ranges, prescaler,
}
use mcan.Message.Raw.{RawMessage}
use mcan.Reg.Block.{
  Register, nbtp, tscc, cccr, dbtp, gfc, test, rxf0_c, rxf1_c, txbc, txefc, reset_value,
}
use mcan.Reg.Field.{field_bits, bit, set_bit, clear_bit}
use mcan.Reg.Io.{Event, Hardware, Trace, Outcome, done, answer}
use mcan.TxBuffers.{Tx}

-- The history after `Reg::modify`.
abbrev pub modified : {M : Type 0} → Hardware M → Register → (ℕ → ℕ) → Trace M → Trace M
modified hw r f t = Event.write r (f (answer hw t r)) ∷ Event.read r (answer hw t r) ∷ t

module _ {g : Fugit} (hw : Hardware RawMessage) (f_can : g.HertzU32) where
  -- The prescaler of the data phase; Classic CAN has none.
  abbrev pub data_phase : Mode g → Result g
  data_phase classic = ok 0
  data_phase (fd allow timing) = prescaler timing f_can data_bit_timing_ranges

  module _ (config : CanConfig g) where
    abbrev pub timing_trace : ℕ → Trace RawMessage → Trace RawMessage
    timing_trace p t =
        Event.write tscc (tscc_bits config.timestamp (reset_value tscc))
        ∷ Event.write nbtp (nbtp_bits config.nominal_timing p (reset_value nbtp))
        ∷ t

    abbrev pub switch_trace : Mode g → Trace RawMessage → Trace RawMessage
    switch_trace classic t = modified hw cccr (clear_bit 8) t
    switch_trace (fd allow timing) t = modified hw cccr (λ w. bit 9 allow (set_bit 8 w)) t

    abbrev pub mode_trace : ℕ → Mode g → Trace RawMessage → Trace RawMessage
    mode_trace d classic t = switch_trace classic t
    mode_trace d (fd allow timing) t =
        Event.write dbtp (dbtp_bits timing d (reset_value dbtp)) ∷ switch_trace (fd allow timing) t

    abbrev pub gfc_trace : Trace RawMessage → Trace RawMessage
    gfc_trace t = Event.write gfc (field_bits 2 2 2 (field_bits 2 4 2 (reset_value gfc))) ∷ t

    abbrev pub rest_trace : Trace RawMessage → Trace RawMessage
    rest_trace t =
        modified hw txefc (field_bits 6 24 (sanitized 32 config.tx.tx_event_fifo_watermark)) (
          modified hw txbc (bit 30 (queue_mode_bit config.tx.tx_queue_submode)) (
            modified hw rxf1_c (rx_fifo_bits config.rx_fifo_1) (
              modified hw rxf0_c (rx_fifo_bits config.rx_fifo_0) (
                modified hw test (bit 4 config.loopback)
                  (modified hw cccr (bit 7 config.loopback) (gfc_trace t))))))

    abbrev pub applied_trace : ℕ → ℕ → Trace RawMessage → Trace RawMessage
    applied_trace p d t = rest_trace (mode_trace d config.mode (timing_trace p t))

    module _ (tx : Tx g) where
      abbrev pub Ending : Type 0
      Ending = Outcome (Applied g × Tx g) × Trace RawMessage

      abbrev pub Configured : Ending → Trace RawMessage → Type 0
      Configured e t = e ≡ (done (applied, record tx { mode = config.mode }), t)

      pub mode_lem :
          (m : Mode g) (d : ℕ) (t : Trace RawMessage)
          → data_phase m ≡ ok d
          → Configured (apply_mode hw f_can config tx m t) (rest_trace (mode_trace d m t))
      unfolding apply_mode apply_rest
      mode_lem classic d t h = refl
      mode_lem (fd allow timing) d t h = rw h

      pub data_lem :
          (e : BitTimingError g) (m : Mode g) (t : Trace RawMessage)
          → data_phase m ≡ err e
          → apply_mode hw f_can config tx m t ≡ (done (failed (bit_timing e), tx), switch_trace m t)
      unfolding apply_mode apply_rest
      data_lem e classic t h = cc
      data_lem e (fd a timing) t h = rw h

      -- Beyond the checks of the timestamp and of the nominal timing.
      pub guarded :
          (p : ℕ) (t : Trace RawMessage)
          → 1 ≤ config.timestamp.prescaler
          → config.timestamp.prescaler ≤ 16
          → prescaler config.nominal_timing f_can nominal_bit_timing_ranges ≡ ok p
          → apply_configuration hw f_can config tx t
            ≡ apply_mode hw f_can config tx config.mode (timing_trace p t)
      unfolding apply_configuration contains
      guarded p t low high h = ground (arith, h)

      -- With all prescalers in range, `apply_configuration` returns `Ok` and these are its accesses.
      pub apply_configuration-run :
          (p d : ℕ) (t : Trace RawMessage)
          → 1 ≤ config.timestamp.prescaler
          → config.timestamp.prescaler ≤ 16
          → prescaler config.nominal_timing f_can nominal_bit_timing_ranges ≡ ok p
          → data_phase config.mode ≡ ok d
          → Configured (apply_configuration hw f_can config tx t) (applied_trace p d t)
      apply_configuration-run p d t low high nominal phase =
          guarded p t low high nominal ∙ mode_lem config.mode d (timing_trace p t) phase
