-- ===== src/TxBuffers/Enabled.antt =====
-- Which buffers may trigger the interrupts of `Tx` (mcan/src/tx_buffers.rs).
use mcan.Base.{ℕ, ◌^◌, ◌<◌, ◌≡◌, Bool, ◌&&◌, ◌||◌, not, bit_and, bit_or}
use mcan.Bits.{
  u32, test_bit, test_bit-bit_and, test_bit-bit_or, test_bit-bit_not, test_bit-u32, bit_not,
}
use mcan.Message.Raw.{RawMessage}
use mcan.Reg.Block.{txbcie, txbtie, Register-discrete}
use mcan.Reg.Io.{Hardware, answer, Trace}
use mcan.Reg.Stored.{stored, Holds}
use mcan.TxBufferSet.{TxBufferSet}
use mcan.TxBuffers.{
  enable_cancellation_interrupt, disable_cancellation_interrupt,
  enable_transmission_completed_interrupt, disable_transmission_completed_interrupt,
}

or_word :
    (x set i : ℕ) → i < 32 → test_bit (u32 (bit_or x set)) i ≡ (test_bit x i || test_bit set i)
or_word x set i low = rw (test_bit-u32 i (bit_or x set) low) (test_bit-bit_or i x set)

and_not_word :
    (x set i : ℕ)
    → i < 32
    → set < 2 ^ 32
    → test_bit (u32 (bit_and x (bit_not 32 set))) i ≡ (test_bit x i && not (test_bit set i))
and_not_word x set i low fits = rw (
  test_bit-u32 i (bit_and x (bit_not 32 set)) low,
  test_bit-bit_and i x (bit_not 32 set),
  test_bit-bit_not i 32 set fits low,
)

module _ (hw : Hardware RawMessage) where
  -- Buffer `i` may trigger the interrupt, as TXBCIE, and TXBTIE, reads.
  abbrev pub cancellation_enabled : Trace RawMessage → ℕ → Bool
  cancellation_enabled t i = test_bit (answer hw t txbcie) i

  abbrev pub completion_enabled : Trace RawMessage → ℕ → Bool
  completion_enabled t i = test_bit (answer hw t txbtie) i

module _ (hw : Hardware RawMessage) {start : ℕ} (set : TxBufferSet) (t : Trace RawMessage)
    (i : ℕ) where
  -- Enabling the cancellation interrupt adds the buffers of the set to those that may trigger it, and
  -- disabling it takes them away; the other buffers stay as they are, if TXBCIE holds what is written.
  pub cancellation_interrupt_lem :
      Holds hw txbcie start
      → i < 32
      → set.bits < 2 ^ 32
      → (cancellation_enabled hw (enable_cancellation_interrupt hw set t).1 i
          ≡ (cancellation_enabled hw t i || test_bit set.bits i))
        × (cancellation_enabled hw (disable_cancellation_interrupt hw set t).1 i
            ≡ (cancellation_enabled hw t i && not (test_bit set.bits i)))
  unfolding enable_cancellation_interrupt disable_cancellation_interrupt Register-discrete
  cancellation_interrupt_lem holds low fits = (
    simp holds (or_word (u32 (stored txbcie start t)) set.bits i low),
    simp holds (and_not_word (u32 (stored txbcie start t)) set.bits i low fits),
  )

  -- Enabling the interrupt on completed transmissions adds the buffers of the set to those that may trigger
  -- it, and disabling it takes them away; the other buffers stay as they are, if TXBTIE holds what is
  -- written.
  pub completion_interrupt_lem :
      Holds hw txbtie start
      → i < 32
      → set.bits < 2 ^ 32
      → (completion_enabled hw (enable_transmission_completed_interrupt hw set t).1 i
          ≡ (completion_enabled hw t i || test_bit set.bits i))
        × (completion_enabled hw (disable_transmission_completed_interrupt hw set t).1 i
            ≡ (completion_enabled hw t i && not (test_bit set.bits i)))
  unfolding enable_transmission_completed_interrupt disable_transmission_completed_interrupt
      Register-discrete
  completion_interrupt_lem holds low fits = (
    simp holds (or_word (u32 (stored txbtie start t)) set.bits i low),
    simp holds (and_not_word (u32 (stored txbtie start t)) set.bits i low fits),
  )
