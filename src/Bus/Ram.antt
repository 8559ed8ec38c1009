-- ===== src/Bus/Ram.antt =====
-- The configuration of the message RAM: `CanConfigurable::apply_ram_config` (mcan/src/bus.rs).
pub mod Sections
pub mod Regions
use mcan.Base.{ℕ, ◌+◌, ◌-◌, ltb, if◌then◌else◌, Option, none, some}
use mcan.Bits.{u8, u16}
use mcan.MessageRam.{
  Capacities, Section, filters_standard, filters_extended, rx_fifo_0, rx_fifo_1,
  rx_dedicated_buffers, tx_event_fifo, tx_buffers, count, offset, reg_value,
}
use mcan.Reg.Block.{Register, sidfc, xidfc, rxbc, rxesc, rxf0_c, rxf1_c, txbc, txesc, txefc}
use mcan.Reg.Field.{field_bits}
use mcan.Reg.Io.{Io, ◌>>=◌, ◌>>◌, or_panic, write_reg}

-- `a - b` on `u8`
unfoldable pub checked_sub : ℕ → ℕ → Option ℕ
checked_sub a b = if ltb a b then none else some (a - b)

module _ (c : Capacities) (start : ℕ) where
  -- `&mem.section as *const _ as u16` and `mem.section.len() as u8`, for a memory at `start`.
  unfoldable pub address : Section → ℕ
  address s = u16 (start + offset c s)

  unfoldable pub len_u8 : Section → ℕ
  unfolding count
  len_u8 s = u8 (count c s)

  -- What the closures write, in the order of the calls: the start of a list and its length, in a field of `wi`
  -- bits, for SIDFC, XIDFC, RXF0C, RXF1C and TXEFC.
  unfoldable pub list_bits : ℕ → Section → ℕ → ℕ
  unfolding field_bits address len_u8
  list_bits wi s bits = field_bits wi 16 (len_u8 s) (field_bits 16 0 (address s) bits)

  unfoldable pub rxesc_bits : ℕ → ℕ
  unfolding field_bits reg_value
  rxesc_bits bits = field_bits 3 4 (reg_value c.rx_fifo_1_message) (
      field_bits 3 0 (reg_value c.rx_fifo_0_message)
        (field_bits 3 8 (reg_value c.rx_buffer_message) bits))

  unfoldable pub txbc_bits : ℕ → ℕ → ℕ
  unfolding field_bits address
  txbc_bits queue bits =
      field_bits 16 0 (address tx_buffers)
        (field_bits 6 16 (u8 c.dedicated_tx_buffers) (field_bits 6 24 queue bits))

  unfoldable pub apply_ram_config : {M : Type 0} → Io M (Unit {0})
  unfolding write_reg list_bits field_bits address rxesc_bits txbc_bits checked_sub reg_value
  apply_ram_config =
      write_reg sidfc (list_bits 8 filters_standard)
      >> (write_reg xidfc (list_bits 7 filters_extended)
          >> (write_reg rxbc (field_bits 16 0 (address rx_dedicated_buffers))
              >> (write_reg rxesc rxesc_bits
                  >> (write_reg rxf0_c (list_bits 7 rx_fifo_0)
                      >> (write_reg rxf1_c (list_bits 7 rx_fifo_1)
                          >> (or_panic (checked_sub (u8 c.tx_buffers) (u8 c.dedicated_tx_buffers))
                              >>= λ queue.
                                  (write_reg txbc (txbc_bits queue)
                                    >> (write_reg txesc (field_bits 3 0 (reg_value c.tx_message))
                                        >> write_reg txefc (list_bits 6 tx_event_fifo)))))))))
