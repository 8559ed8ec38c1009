-- ===== src/Bus/Configured.antt =====
-- The configuration that the peripheral has after `apply_configuration` (mcan/src/bus.rs).
use mcan.Base.{ℕ, ◌≤◌, ◌≡◌, refl, ◌∷◌, [], List, arith, if◌then◌else◌, ◌∙◌, ap, sym, subst}
use mcan.Bits.{u32}
use mcan.Bus.{apply_configuration, applied, CanConfig, sanitized, queue_mode_bit}
use mcan.Bus.Run.{data_phase, applied_trace, Ending, apply_configuration-run}
use mcan.Bus.Registers.{
  Keeps, contents, cccr_word, cccr_bits, IsRest-words, fifo_fields, IsRxFifoConfigured,
}
use mcan.Config.{Fugit, ok, nominal_bit_timing_ranges, prescaler}
use mcan.Message.Raw.{RawMessage}
use mcan.Reg.Block.{Register, cccr, test, rxf0_c, rxf1_c, txbc, txefc}
use mcan.Reg.Field.{
  mask, field_bits, field_reader, bit, bit_reader, FieldWrite, field_reader-write_fields,
  bit_reader-write_fields, flag, flag_lem,
}
use mcan.Reg.Io.{Hardware, Trace, done}
use mcan.TxBuffers.{Tx, is_fd, allows_switching}

module _ {g : Fugit} (hw : Hardware RawMessage) (f_can : g.HertzU32) (config : CanConfig g)
    (start : Register → ℕ) (held : Keeps hw start) (tx : Tx g) (t : Trace RawMessage) where
  -- What a register holds after the call, and what one read of it gives before the call.
  abbrev pub after : Register → ℕ
  after = contents start (apply_configuration hw f_can config tx t).1

  abbrev pub before : Register → ℕ
  before r = u32 (contents start t r)

  module _ (p d : ℕ) (low : 1 ≤ config.timestamp.prescaler) (high : config.timestamp.prescaler ≤ 16)
      (nominal : prescaler config.nominal_timing f_can nominal_bit_timing_ranges ≡ ok p)
      (phase : data_phase hw f_can config.mode ≡ ok d) where
    run :
        apply_configuration hw f_can config tx t
        ≡ (done (applied, record tx { mode = config.mode }), applied_trace hw f_can config p d t)
    run = apply_configuration-run hw f_can config tx p d t low high nominal phase

    after_lem : (r : Register) → after r ≡ contents start (applied_trace hw f_can config p d t) r
    after_lem r = ap (λ (e : Ending hw f_can config tx). contents start e.1 r) run

    -- A register of the rest, once its word is known.
    rest_lem :
        (r : Register) {w : ℕ}
        → contents start (applied_trace hw f_can config p d t) r ≡ w
        → after r ≡ w
    rest_lem r e = after_lem r ∙ e

    -- With all prescalers in range, `apply_configuration` returns `Ok` and gives `tx` the mode of the
    -- configuration. If the registers that it modifies read back what was written to them, the peripheral then is
    -- in this mode: FDOE is set exactly for CAN FD, BRSE then is the setting for bit rate switching and otherwise
    -- stays, TEST and LBCK are the loopback setting, and INIT and CCE stay.
    pub apply_configuration-mode :
        ((apply_configuration hw f_can config tx t).0
          ≡ done (applied, record tx { mode = config.mode }))
        × (bit_reader 7 (after cccr) ≡ config.loopback)
        × (bit_reader 8 (after cccr) ≡ is_fd config.mode)
        × (bit_reader 9 (after cccr) ≡ (
            if is_fd config.mode then allows_switching config.mode else bit_reader 9 (before cccr)))
        × (bit_reader 0 (after cccr) ≡ bit_reader 0 (before cccr))
        × (bit_reader 1 (after cccr) ≡ bit_reader 1 (before cccr))
        × (bit_reader 4 (after test) ≡ config.loopback)
    unfolding bit field_bits mask
    apply_configuration-mode =
        let word = after_lem cccr ∙ cccr_word hw f_can config start held config.mode d p t in
        let b = cccr_bits hw f_can config start held config.mode (before cccr) (omega arith) in
        let lbck = rest_lem test (IsRest-words hw f_can config start held config.mode d p t).0 in
        (
          ap (λ (e : Ending hw f_can config tx). e.0) run,
          ap (bit_reader 7) word ∙ b.0,
          ap (bit_reader 8) word ∙ b.1,
          ap (bit_reader 9) word ∙ b.2,
          ap (bit_reader 0) word ∙ b.3,
          ap (bit_reader 1) word ∙ b.4,
          ap (bit_reader 4) lbck
              ∙ (bit_reader-write_fields 4 ((1, 4, flag config.loopback) ∷ []) (before test)
                    (omega arith) refl
                  ∙ flag_lem config.loopback),
        )

    -- With all prescalers in range, and if the registers that `apply_configuration` modifies read back what was
    -- written to them, afterwards each receive FIFO has its mode and its watermark, which is 0 if it was above 64,
    -- the transmit queue its mode, and the event FIFO its watermark, which is 0 if it was above 32 (the documentation
    -- of the watermarks has a value above the maximum interpreted as the maximum, 64 or 32); the start addresses and
    -- sizes that are configured in these registers stay.
    pub apply_configuration-fifos :
        IsRxFifoConfigured config.rx_fifo_0 (before rxf0_c) (after rxf0_c)
        × IsRxFifoConfigured config.rx_fifo_1 (before rxf1_c) (after rxf1_c)
        × (bit_reader 30 (after txbc) ≡ queue_mode_bit config.tx.tx_queue_submode)
        × (field_reader 0 (mask 16) (after txbc) ≡ field_reader 0 (mask 16) (before txbc))
        × (field_reader 16 (mask 6) (after txbc) ≡ field_reader 16 (mask 6) (before txbc))
        × (field_reader 24 (mask 6) (after txbc) ≡ field_reader 24 (mask 6) (before txbc))
        × (field_reader 24 (mask 6) (after txefc) ≡ sanitized 32 config.tx.tx_event_fifo_watermark)
        × (field_reader 0 (mask 16) (after txefc) ≡ field_reader 0 (mask 16) (before txefc))
        × (field_reader 16 (mask 6) (after txefc) ≡ field_reader 16 (mask 6) (before txefc))
    unfolding bit field_bits mask sanitized
    apply_configuration-fifos =
        let r = IsRest-words hw f_can config start held config.mode d p t in
        let rxf0 = rest_lem rxf0_c r.1 in
        let rxf1 = rest_lem rxf1_c r.2 in
        let queue = rest_lem txbc r.3 in
        let events = rest_lem txefc r.4 in
        let qs : List FieldWrite = (1, 30, flag (queue_mode_bit config.tx.tx_queue_submode)) ∷ [] in
        let es : List FieldWrite = (6, 24, sanitized 32 config.tx.tx_event_fifo_watermark) ∷ [] in
        (
          subst (IsRxFifoConfigured config.rx_fifo_0 (before rxf0_c)) (sym rxf0)
              (fifo_fields config.rx_fifo_0 (before rxf0_c) (omega arith)),
          subst (IsRxFifoConfigured config.rx_fifo_1 (before rxf1_c)) (sym rxf1)
              (fifo_fields config.rx_fifo_1 (before rxf1_c) (omega arith)),
          ap (bit_reader 30) queue
              ∙ (bit_reader-write_fields 30 qs (before txbc) (omega arith) refl
                  ∙ flag_lem (queue_mode_bit config.tx.tx_queue_submode)),
          ap (field_reader 0 (mask 16)) queue
              ∙ field_reader-write_fields 16 0 qs (before txbc) (omega arith) refl,
          ap (field_reader 16 (mask 6)) queue
              ∙ field_reader-write_fields 6 16 qs (before txbc) (omega arith) refl,
          ap (field_reader 24 (mask 6)) queue
              ∙ field_reader-write_fields 6 24 qs (before txbc) (omega arith) refl,
          ap (field_reader 24 (mask 6)) events
              ∙ (field_reader-write_fields 6 24 es (before txefc) (omega arith) refl
                  ∙ ground arith),
          ap (field_reader 0 (mask 16)) events
              ∙ field_reader-write_fields 16 0 es (before txefc) (omega arith) refl,
          ap (field_reader 16 (mask 6)) events
              ∙ field_reader-write_fields 6 16 es (before txefc) (omega arith) refl,
        )
