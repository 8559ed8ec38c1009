-- ===== src/Tests/Bus.antt =====
-- The theorems on the configuration of the bus at concrete inputs.
use mcan.Base.{ℕ, ◌+◌, ◌≡◌, refl, true, if◌then◌else◌, arith}
use mcan.Bus.{
  apply_configuration, applied, failed, bit_timing, CanConfig, TimeStampSelect, TxQueueMode,
  sanitized, queue_mode_bit, select_u8, ConfigurationError,
}
use mcan.Bus.BitRate as BitRate
use mcan.Bus.BitRate.{HasNominalRate, IsDataPhase, apply_configuration-bit_rate}
use mcan.Bus.Configured.{after, before, apply_configuration-mode, apply_configuration-fifos}
use mcan.Bus.Registers.{IsRxFifoConfigured, contents}
use mcan.Bus.Errors.{apply_configuration-error}
use mcan.Bits.{u32, test_bit}
use mcan.Config.{
  BitTiming, fd, phase_seg_1_out_of_range, check, contains, prescaler, data_bit_timing_ranges,
  time_quanta_per_bit, divide, checked_rem, in_range,
}
use mcan.Reg.Block.{
  Register, cccr, test, rxf0_c, rxf1_c, txbc, txefc, nbtp, tscc, dbtp, reset_value,
}
use mcan.Reg.Field.{mask, field_reader, bit_reader}
use mcan.Reg.Io.{done}
use mcan.TxBuffers.{is_fd, allows_switching}
use mcan.Tests.Fixtures.{hertz}
use mcan.Tests.Setup.{
  nominal, fast, fd_config, buffers, memory, start, memory-Keeps, nominal-prescaler, fast-prescaler,
}

apply_configuration-mode_example :
    let c = after memory 40_000_000 fd_config reset_value memory-Keeps buffers start cccr in
    ((apply_configuration memory 40_000_000 fd_config buffers start).0
      ≡ done (applied, record buffers { mode = fd true fast }))
    × (bit_reader 7 c ≡ true)
    × (bit_reader 8 c ≡ is_fd (fd true fast))
    × (bit_reader 9 c
        ≡ (if is_fd (fd true fast) then allows_switching (fd true fast) else bit_reader 9 1))
    × (bit_reader 0 c ≡ bit_reader 0 1)
    × (bit_reader 1 c ≡ bit_reader 1 1)
    × (bit_reader 4 (after memory 40_000_000 fd_config reset_value memory-Keeps buffers start test)
        ≡ true)
unfolding reset_value
apply_configuration-mode_example =
    apply_configuration-mode memory 40_000_000 fd_config reset_value memory-Keeps buffers start 5 1
      (omega arith) (omega arith) nominal-prescaler fast-prescaler

abbrev configured : Register → ℕ
configured r = after memory 40_000_000 fd_config reset_value memory-Keeps buffers start r

abbrev old : Register → ℕ
old r = before memory 40_000_000 fd_config reset_value memory-Keeps buffers start r

apply_configuration-fifos_example :
    IsRxFifoConfigured fd_config.rx_fifo_0 (old rxf0_c) (configured rxf0_c)
    × IsRxFifoConfigured fd_config.rx_fifo_1 (old rxf1_c) (configured rxf1_c)
    × (bit_reader 30 (configured txbc) ≡ queue_mode_bit TxQueueMode.priority)
    × (field_reader 0 (mask 16) (configured txbc) ≡ field_reader 0 (mask 16) (old txbc))
    × (field_reader 16 (mask 6) (configured txbc) ≡ field_reader 16 (mask 6) (old txbc))
    × (field_reader 24 (mask 6) (configured txbc) ≡ field_reader 24 (mask 6) (old txbc))
    × (field_reader 24 (mask 6) (configured txefc) ≡ sanitized 32 32)
    × (field_reader 0 (mask 16) (configured txefc) ≡ field_reader 0 (mask 16) (old txefc))
    × (field_reader 16 (mask 6) (configured txefc) ≡ field_reader 16 (mask 6) (old txefc))
apply_configuration-fifos_example =
    apply_configuration-fifos memory 40_000_000 fd_config reset_value memory-Keeps buffers start 5 1
      (omega arith) (omega arith) nominal-prescaler fast-prescaler

abbrev held : Register → ℕ
held r = BitRate.after memory 40_000_000 fd_config buffers start reset_value r

apply_configuration-bit_rate_example :
    HasNominalRate {g = hertz} 40_000_000 nominal (held nbtp)
    × (field_reader 16 (mask 4) (held tscc) + 1 ≡ 16)
    × (field_reader 0 (mask 2) (held tscc) ≡ select_u8 TimeStampSelect.inc)
    × IsDataPhase {g = hertz} 40_000_000 (fd true fast) (held dbtp) (reset_value dbtp)
apply_configuration-bit_rate_example =
    apply_configuration-bit_rate memory 40_000_000 fd_config buffers start reset_value 5 1
      (omega arith) (omega arith) nominal-prescaler fast-prescaler

-- A data phase whose first segment is too long.
abbrev slow : BitTiming hertz
slow = record { sjw = 5; phase_seg_1 = 33; phase_seg_2 = 5; bitrate = 2_000_000 }

abbrev bad_config : CanConfig hertz
bad_config = record fd_config { mode = fd true slow }

abbrev refused : ConfigurationError hertz
refused = bit_timing (phase_seg_1_out_of_range data_bit_timing_ranges.phase_seg_1)

configuration-refused :
    (apply_configuration memory 40_000_000 bad_config buffers start).0
    ≡ done (failed refused, buffers)
unfolding apply_configuration prescaler check contains time_quanta_per_bit divide checked_rem
    in_range
configuration-refused = refl

abbrev left : Register → ℕ
left r = contents reset_value (apply_configuration memory 40_000_000 bad_config buffers start).1 r

-- NBTP and TSCC are written and FDOE is set before the data phase is refused.
apply_configuration-error_example :
    (buffers ≡ buffers)
    × (left txbc ≡ contents reset_value start txbc)
    × (test_bit (u32 (left cccr)) 1 ≡ test_bit (u32 (contents reset_value start cccr)) 1)
apply_configuration-error_example =
    apply_configuration-error memory 40_000_000 bad_config reset_value memory-Keeps.cccr_held
      buffers buffers refused start txbc 1 configuration-refused (λ (e : txbc ≡ nbtp). absurd cc)
      (λ (e : txbc ≡ tscc). absurd cc) (λ (e : txbc ≡ cccr). absurd cc) (omega arith) (omega arith)
      (omega arith)
