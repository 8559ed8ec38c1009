-- ===== src/TxBuffers.antt =====
-- `Tx`, the transmit buffers and the queue (mcan/src/tx_buffers.rs).
pub mod Send
pub mod Cancel
pub mod Enabled
use mcan.Base.{
  ℕ, bit_and, bit_or, ltb, not, ◌==◌, ◌&&◌, Bool, true, false, if◌then◌else◌, Option, none, some,
  [], ◌∷◌,
}
use mcan.Bits.{bit_not, ◌<<<◌}
use mcan.Config.{Fugit, Mode, classic, fd}
use mcan.FlagIter.{Iter}
use mcan.Message.Raw.{RawMessage, fd_format, bit_rate_switching}
use mcan.Nb.{NbResult, ok, would_block, other, Infallible}
use mcan.Reg.Block.{Register, txfqs, txbrp, txbar, txbcr, txbto, txbcf, txbtie, txbcie}
use mcan.Reg.Field.{field_reader, bit_reader}
use mcan.Reg.Io.{
  Hardware, Io, ◌>>=◌, ◌>>◌, return, or_panic, write_reg, read_reg, modify_reg, store_cell,
}
use mcan.TxBufferSet.{TxBufferSet, checked_one_shl, from_iter, iter}

pub data Error : Type 0 where
  out_of_bounds fd_disabled bit_rate_switching_disabled : Error

-- `memory` has `tx_buffers` cells, of which the first `dedicated_tx_buffers` are the dedicated ones.
pub record Tx (g : Fugit) : Type 0 where
  pub tx_buffers : ℕ
  pub dedicated_tx_buffers : ℕ
  pub mode : Mode g

module _ {g : Fugit} where
  unfoldable pub is_fd : Mode g → Bool
  is_fd classic = false
  is_fd (fd allow timing) = true

  unfoldable pub allows_switching : Mode g → Bool
  allows_switching classic = false
  allows_switching (fd allow timing) = allow

  -- `none` is `Ok(())`.
  unfoldable pub validate_message : Tx g → RawMessage → Option Error
  unfolding is_fd allows_switching
  validate_message self message =
      if fd_format message && not (is_fd self.mode)
      then some fd_disabled
      else if bit_rate_switching message && not (allows_switching self.mode)
      then some bit_rate_switching_disabled
      else none

unfoldable pub add_request : ℕ → Io RawMessage (Unit {0})
unfolding checked_one_shl write_reg
add_request index = do b ← or_panic (checked_one_shl index); write_reg txbar (λ _. b)

module _ (hw : Hardware RawMessage) where
  unfoldable pub is_buffer_in_use : ℕ → Io RawMessage Bool
  unfolding checked_one_shl read_reg
  is_buffer_in_use index = do
    add_requests ← read_reg hw txbar
    pending ← read_reg hw txbrp
    b ← or_panic (checked_one_shl index)
    return (not (bit_and (bit_or add_requests pending) b == 0))

  unfoldable pub find_put_index : Io RawMessage (Option ℕ)
  unfolding read_reg bit_reader field_reader
  find_put_index = do
    status ← read_reg hw txfqs
    return (if bit_reader 21 status then none else some (field_reader 16 0x1f status))

module _ {g : Fugit} (hw : Hardware RawMessage) where
  -- What follows the test in `transmit`.
  unfoldable pub put : Tx g → ℕ → RawMessage → Io RawMessage (NbResult Error (Unit {0}))
  unfolding validate_message add_request store_cell
  put self index message = elim (validate_message self message) [
    | some e ↦ return (other e)
    | none ↦
        if ltb index self.tx_buffers
        then store_cell index message >> (add_request index >> return (ok tt))
        else return (other out_of_bounds)
  ]

  unfoldable pub transmit : Tx g → ℕ → RawMessage → Io RawMessage (NbResult Error (Unit {0}))
  unfolding is_buffer_in_use put
  transmit self index message = do
    in_use ← is_buffer_in_use hw index
    if in_use then return would_block else put self index message

  unfoldable pub transmit_dedicated :
      Tx g → ℕ → RawMessage → Io RawMessage (NbResult Error (Unit {0}))
  unfolding transmit
  transmit_dedicated self index message =
      if ltb self.dedicated_tx_buffers index
      then return (other out_of_bounds)
      else transmit self index message

  unfoldable pub transmit_queued : Tx g → RawMessage → Io RawMessage (NbResult Error (Unit {0}))
  unfolding find_put_index transmit
  transmit_queued self message = do
    put_index ← find_put_index hw
    elim put_index [ none ↦ return would_block | some index ↦ transmit self index message ]

module _ (hw : Hardware RawMessage) where
  unfoldable pub enable_cancellation_interrupt : TxBufferSet → Io RawMessage (Unit {0})
  unfolding modify_reg
  enable_cancellation_interrupt to_be_enabled =
      modify_reg hw txbcie (λ r. bit_or r to_be_enabled.bits)

  unfoldable pub disable_cancellation_interrupt : TxBufferSet → Io RawMessage (Unit {0})
  unfolding modify_reg
  disable_cancellation_interrupt to_be_disabled =
      modify_reg hw txbcie (λ r. bit_and r (bit_not 32 to_be_disabled.bits))

  unfoldable pub enable_transmission_completed_interrupt : TxBufferSet → Io RawMessage (Unit {0})
  unfolding modify_reg
  enable_transmission_completed_interrupt to_be_enabled =
      modify_reg hw txbtie (λ r. bit_or r to_be_enabled.bits)

  unfoldable pub disable_transmission_completed_interrupt : TxBufferSet → Io RawMessage (Unit {0})
  unfolding modify_reg
  disable_transmission_completed_interrupt to_be_disabled =
      modify_reg hw txbtie (λ r. bit_and r (bit_not 32 to_be_disabled.bits))

  unfoldable pub get_cancellation_flags : Io RawMessage TxBufferSet
  unfolding read_reg
  get_cancellation_flags = read_reg hw txbcf >>= λ bits. return (record { bits = bits })

  unfoldable pub get_transmission_completed_flags : Io RawMessage TxBufferSet
  unfolding read_reg
  get_transmission_completed_flags = read_reg hw txbto >>= λ bits. return (record { bits = bits })

  unfoldable pub iter_cancellation_flags : Io RawMessage Iter
  unfolding get_cancellation_flags iter
  iter_cancellation_flags = get_cancellation_flags >>= λ set. return (iter set)

  unfoldable pub iter_transmission_completed_flags : Io RawMessage Iter
  unfolding get_transmission_completed_flags iter
  iter_transmission_completed_flags = get_transmission_completed_flags >>= λ set. return (iter set)

  unfoldable pub poll_canceled : TxBufferSet → Io RawMessage (NbResult Infallible (Unit {0}))
  unfolding get_cancellation_flags
  poll_canceled to_be_canceled = do
    already_canceled ← get_cancellation_flags
    return (
        if bit_and already_canceled.bits to_be_canceled.bits == to_be_canceled.bits
        then ok tt
        else would_block)

  -- `or_else` polls again after the request, for any error.
  unfoldable pub retry :
      TxBufferSet → NbResult Infallible (Unit {0}) → Io RawMessage (NbResult Infallible (Unit {0}))
  unfolding write_reg poll_canceled
  retry to_be_canceled (ok u) = return (ok u)
  retry to_be_canceled would_block =
      write_reg txbcr (λ _. to_be_canceled.bits) >> poll_canceled to_be_canceled
  retry to_be_canceled (other e) =
      write_reg txbcr (λ _. to_be_canceled.bits) >> poll_canceled to_be_canceled

  unfoldable pub cancel_multi : TxBufferSet → Io RawMessage (NbResult Infallible (Unit {0}))
  unfolding poll_canceled retry
  cancel_multi to_be_canceled = poll_canceled to_be_canceled >>= retry to_be_canceled

  unfoldable pub cancel : ℕ → Io RawMessage (NbResult Infallible (Unit {0}))
  unfolding from_iter cancel_multi
  cancel index = or_panic (from_iter (index ∷ [])) >>= cancel_multi
