-- ===== src/Bus.antt =====
-- Applying the configuration of the bus: `CanConfigurable::apply_configuration` (mcan/src/bus.rs) and the structs of
-- mcan/src/config.rs that it reads.
pub mod Lifecycle
pub mod Ram
pub mod Run
pub mod Success
pub mod Registers
pub mod Configured
pub mod Timing
pub mod BitRate
pub mod Errors
use mcan.Base.{ℕ, ◌-◌, Bool, true, false, not, leb, ltb, ◌&&◌, if◌then◌else◌}
use mcan.Bits.{u8}
use mcan.Config.{
  Fugit, BitTiming, BitTimingError, Mode, classic, fd, Result, ok, err, panic, prescaler,
  nominal_bit_timing_ranges, data_bit_timing_ranges, Range, contains,
}
use mcan.Message.Raw.{RawMessage}
use mcan.Reg.Block.{Register, nbtp, tscc, cccr, dbtp, gfc, test, rxf0_c, rxf1_c, txbc, txefc}
use mcan.Reg.Field.{field_bits, bit, set_bit, clear_bit}
use mcan.Reg.Io.{Hardware, Io, ◌>>=◌, ◌>>◌, return, fail, write_reg, modify_reg}
use mcan.TxBuffers.{Tx}

pub data RxFifoMode : Type 0 where
  blocking overwrite : RxFifoMode

-- `From<RxFifoMode> for bool`
unfoldable pub fifo_mode_bit : RxFifoMode → Bool
fifo_mode_bit overwrite = true
fifo_mode_bit blocking = false

pub record RxFifoConfig : Type 0 where
  pub mode : RxFifoMode
  pub watermark : ℕ

pub data TxQueueMode : Type 0 where
  fifo priority : TxQueueMode

-- `From<TxQueueMode> for bool`
unfoldable pub queue_mode_bit : TxQueueMode → Bool
queue_mode_bit priority = true
queue_mode_bit fifo = false

pub record TxConfig : Type 0 where
  pub tx_event_fifo_watermark : ℕ
  pub tx_queue_submode : TxQueueMode

pub data TimeStampSelect : Type 0 where
  zero inc ext : TimeStampSelect

-- `variant as u8`
unfoldable pub select_u8 : TimeStampSelect → ℕ
select_u8 zero = 0
select_u8 inc = 1
select_u8 ext = 2

pub record Timestamp : Type 0 where
  pub select : TimeStampSelect
  pub prescaler : ℕ

pub record CanConfig (g : Fugit) : Type 0 where
  pub mode : Mode g
  pub loopback : Bool
  pub nominal_timing : BitTiming g
  pub timestamp : Timestamp
  pub rx_fifo_0 : RxFifoConfig
  pub rx_fifo_1 : RxFifoConfig
  pub tx : TxConfig

pub data ConfigurationError (g : Fugit) : Type 0 where
  bit_timing : BitTimingError g → ConfigurationError g
  invalid_time_stamp_prescaler : ConfigurationError g

-- `Result<(), ConfigurationError>`
pub data Applied (g : Fugit) : Type 0 where
  applied : Applied g
  failed : ConfigurationError g → Applied g

module _ {g : Fugit} where
  -- What the closures write to NBTP, DBTP and TSCC, in the order of the calls.
  unfoldable pub nbtp_bits : BitTiming g → ℕ → ℕ → ℕ
  unfolding field_bits
  nbtp_bits timing prescaler bits = field_bits 9 16 (prescaler - 1) (
      field_bits 7 0 (timing.phase_seg_2 - 1)
        (field_bits 8 8 (timing.phase_seg_1 - 1) (field_bits 7 25 (timing.sjw - 1) bits)))

  unfoldable pub dbtp_bits : BitTiming g → ℕ → ℕ → ℕ
  unfolding field_bits
  dbtp_bits timing prescaler bits = field_bits 5 16 (u8 (prescaler - 1)) (
      field_bits 4 4 (timing.phase_seg_2 - 1)
        (field_bits 5 8 (timing.phase_seg_1 - 1) (field_bits 4 0 (timing.sjw - 1) bits)))

unfoldable pub tscc_bits : Timestamp → ℕ → ℕ
unfolding field_bits select_u8
tscc_bits timestamp bits =
    field_bits 4 16 (timestamp.prescaler - 1) (field_bits 2 0 (select_u8 timestamp.select) bits)

-- The watermarks that are too large become 0.
unfoldable pub sanitized : ℕ → ℕ → ℕ
sanitized limit watermark = if ltb limit watermark then 0 else watermark

unfoldable pub rx_fifo_bits : RxFifoConfig → ℕ → ℕ
unfolding field_bits bit fifo_mode_bit sanitized
rx_fifo_bits config bits =
    field_bits 7 24 (sanitized 64 config.watermark) (bit 31 (fifo_mode_bit config.mode) bits)

module _ {g : Fugit} (hw : Hardware RawMessage) (f_can : g.HertzU32) (config : CanConfig g)
    (tx : Tx g) where
  -- From the mode of `tx` on.
  unfoldable pub apply_rest : Io RawMessage (Applied g × Tx g)
  unfolding write_reg modify_reg field_bits bit rx_fifo_bits queue_mode_bit sanitized
  apply_rest =
      write_reg gfc (λ w. field_bits 2 2 2 (field_bits 2 4 2 w))
      >> (modify_reg hw cccr (bit 7 config.loopback)
          >> (modify_reg hw test (bit 4 config.loopback)
              >> (modify_reg hw rxf0_c (rx_fifo_bits config.rx_fifo_0)
                  >> (modify_reg hw rxf1_c (rx_fifo_bits config.rx_fifo_1)
                      >> (modify_reg hw txbc (bit 30 (queue_mode_bit config.tx.tx_queue_submode))
                          >> (modify_reg hw txefc
                                (field_bits 6 24 (sanitized 32 config.tx.tx_event_fifo_watermark))
                              >> return (applied, record tx { mode = config.mode })))))))

  -- The match on the mode.
  unfoldable pub apply_mode : Mode g → Io RawMessage (Applied g × Tx g)
  unfolding modify_reg write_reg clear_bit set_bit bit prescaler dbtp_bits apply_rest
  apply_mode classic = modify_reg hw cccr (clear_bit 8) >> apply_rest
  apply_mode (fd allow timing) =
      modify_reg hw cccr (λ w. bit 9 allow (set_bit 8 w))
      >> elim (prescaler timing f_can data_bit_timing_ranges) [
        | ok p ↦ write_reg dbtp (dbtp_bits timing p) >> apply_rest
        | err e ↦ return (failed (bit_timing e), tx)
        | panic ↦ fail
      ]

  unfoldable pub apply_configuration : Io RawMessage (Applied g × Tx g)
  unfolding contains prescaler write_reg nbtp_bits tscc_bits apply_mode
  apply_configuration =
      if not (contains (record { first = 1; last = 16 }) config.timestamp.prescaler)
      then return (failed invalid_time_stamp_prescaler, tx)
      else elim (prescaler config.nominal_timing f_can nominal_bit_timing_ranges) [
        | ok p ↦
            write_reg nbtp (nbtp_bits config.nominal_timing p)
            >> (write_reg tscc (tscc_bits config.timestamp) >> apply_mode config.mode)
        | err e ↦ return (failed (bit_timing e), tx)
        | panic ↦ fail
      ]
