-- ===== src/TxEventFifo.antt =====
-- `TxEventFifo` (mcan/src/tx_event_fifo.rs) for events of the type `M`.
pub mod Pop
pub mod Queue
use mcan.Base.{ℕ, Bool, ltb, ◌==◌, if◌then◌else◌, Option, none, some}
use mcan.Reg.Block.{Register, txefs, txefa}
use mcan.Reg.Field.{field_reader, field_bits}
use mcan.Reg.Io.{Hardware, Io, ◌>>=◌, ◌>>◌, return, write_reg, read_reg, load_cell}

-- `TXEFS.EFFL`, `TXEFS.EFGI` and the writer of `TXEFA.EFAI`.
unfoldable pub effl : ℕ → ℕ
unfolding field_reader
effl bits = field_reader 0 0x3f bits

unfoldable pub efgi : ℕ → ℕ
unfolding field_reader
efgi bits = field_reader 8 0x1f bits

unfoldable pub efai : ℕ → ℕ → ℕ
unfolding field_bits
efai value bits = field_bits 5 0 value bits

-- `memory`: the number of its cells.
pub record TxEventFifo : Type 0 where
  pub capacity : ℕ

module _ {M : Type 0} (hw : Hardware M) where
  unfoldable pub len : TxEventFifo → Io M ℕ
  unfolding read_reg effl
  len self = read_reg hw txefs >>= λ s. return (effl s)

  unfoldable pub is_empty : TxEventFifo → Io M Bool
  unfolding len
  is_empty self = len self >>= λ n. return (n == 0)

  -- What `pop` does once there is an event: `self.memory.get(get_index)?` and the rest.
  unfoldable pub take_event : TxEventFifo → ℕ → Io M (Option M)
  unfolding load_cell efai write_reg
  take_event self get_index =
      if ltb get_index self.capacity
      then (load_cell hw get_index >>= λ event.
          (write_reg txefa (efai get_index) >> return (some event)))
      else return none

  unfoldable pub pop : TxEventFifo → Io M (Option M)
  unfolding read_reg effl efgi take_event
  pop self = do s ← read_reg hw txefs; if effl s == 0 then return none else take_event self (efgi s)
