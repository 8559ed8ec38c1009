-- ===== src/RxDedicatedBuffers/Receive.antt =====
-- Receiving from a dedicated buffer (mcan/src/rx_dedicated_buffers.rs).
use mcan.Base.{
  ℕ, ◌-◌, ◌≤◌, ◌<◌, ◌≡◌, Bool, true, ◌&&◌, ◌∷◌, if◌then◌else◌, arith, ltb, Bool-cases, inl, inr,
  dec_lt,
}
use mcan.Bits.{test_bit, has_flag, has_flag_lem, ◌<<<◌}
use mcan.Nb.{ok, would_block, other}
use mcan.Reg.Block.{Register, ndat1, ndat2}
use mcan.Reg.Effects.{effects}
use mcan.Reg.Io.{Event, Trace, Hardware, done, panic, answer}
use mcan.RxDedicatedBuffers.{
  RxDedicatedBuffer, out_of_bounds, has_new_data, has_new_data_checked, peek, mark_buffer_read,
  mark_message, get_message, receive,
}
use mcan.TxBufferSet.{checked_one_shl}

-- The register and the bit of it that tell of new data in a buffer.
abbrev pub new_data_register : ℕ → Register
new_data_register index = if ltb index 32 then ndat1 else ndat2

abbrev pub new_data_bit : ℕ → ℕ
new_data_bit index = if ltb index 32 then index else index - 32

module _ {M : Type 0} (hw : Hardware M) where
  abbrev pub is_new : ℕ → Trace M → Bool
  is_new index t = test_bit (answer hw t (new_data_register index)) (new_data_bit index)

  abbrev pub after_check : ℕ → Trace M → Trace M
  after_check index t =
      Event.read (new_data_register index) (answer hw t (new_data_register index)) ∷ t

  -- What a check of an index below 64 finds.
  pub has_new_data_lem :
      (index : ℕ) (t : Trace M)
      → index < 64
      → has_new_data hw index t ≡ (done (is_new index t), after_check index t)
  unfolding has_new_data has_flag
  has_new_data_lem index t low = elim (dec_lt index 32) [
    | yes first ↦ ground (arith, has_flag_lem (answer hw t ndat1) index first)
    | no second ↦ ground (arith, has_flag_lem (answer hw t ndat2) (index - 32) (omega arith))
  ]

module _ {M : Type 0} (hw : Hardware M) (self : RxDedicatedBuffer) where
  -- `receive` of a buffer of the first 32 returns `WouldBlock` if NDAT1 has no new data for it, and
  -- otherwise its message, if it is inside the memory, and clears exactly its bit of NDAT1. In all the
  -- other cases it writes nothing.
  pub receive-first_word :
      (index : ℕ) (t : Trace M)
      → index < 32
      → ((receive hw self index t).0
          ≡ done (
              if is_new hw index t
              then if ltb index self.capacity
                then ok (hw.cell (after_check hw index t) index)
                else other out_of_bounds
              else would_block))
        × (effects (receive hw self index t).1 ≡ (
            if is_new hw index t && ltb index self.capacity
            then Event.write ndat1 (1 <<< index) ∷ effects t
            else effects t))
  unfolding receive peek has_new_data_checked get_message mark_message mark_buffer_read
      checked_one_shl
  receive-first_word index t low = elim (Bool-cases (is_new hw index t)) [
    | inl new ↦ elim (Bool-cases (ltb index self.capacity)) [
      | inl inside ↦ ground (arith, has_new_data_lem hw index t (omega arith), new, inside)
      | inr outside ↦ ground (arith, has_new_data_lem hw index t (omega arith), new, outside)
    ]
    | inr old ↦ ground (arith, has_new_data_lem hw index t (omega arith), old)
  ]

  -- `receive` of a buffer from 64 on fails and touches nothing.
  pub receive-out_of_bounds :
      (index : ℕ) (t : Trace M)
      → 64 ≤ index
      → receive hw self index t ≡ (done (other out_of_bounds), t)
  unfolding receive has_new_data_checked mark_message
  receive-out_of_bounds index t high = ground arith

  -- `receive` of a buffer from 32 to 63 that is inside the memory and has new data panics: the shift in
  -- `mark_buffer_read` overflows. The new data is not cleared.
  pub receive-panics :
      (index : ℕ) (t : Trace M)
      → 32 ≤ index
      → index < 64
      → index < self.capacity
      → is_new hw index t ≡ true
      → ((receive hw self index t).0 ≡ panic) × (effects (receive hw self index t).1 ≡ effects t)
  unfolding receive peek has_new_data_checked get_message mark_message mark_buffer_read
      checked_one_shl
  receive-panics index t low high inside new =
      ground (arith, has_new_data_lem hw index t high, new, inside)
