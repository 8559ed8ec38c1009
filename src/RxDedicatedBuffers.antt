-- ===== src/RxDedicatedBuffers.antt =====
-- `RxDedicatedBuffer` (mcan/src/rx_dedicated_buffers.rs).
pub mod Receive
pub mod Least
use mcan.Base.{
  ℕ, zero, suc, ◌-◌, bit_and, Bool, true, false, not, ltb, ◌==◌, if◌then◌else◌, Option, none, some,
  List, [], ◌∷◌,
}
use mcan.Bits.{◌<<<◌}
use mcan.Message.Ids.{EmbeddedCan, Identifier}
use mcan.Message.Raw.{RawMessage, id}
use mcan.Nb.{NbResult, ok, would_block, other, Infallible}
use mcan.Reg.Block.{Register, ndat1, ndat2}
use mcan.Reg.Io.{Hardware, Io, ◌>>=◌, ◌>>◌, return, or_panic, write_reg, read_reg, load_cell}
use mcan.TxBufferSet.{checked_one_shl}

pub data OutOfBounds : Type 0 where
  out_of_bounds : OutOfBounds

-- `memory`: the number of its cells.
pub record RxDedicatedBuffer : Type 0 where
  pub capacity : ℕ

-- `mark_buffer_read`: the shift `1 << index` of a `u32` is the same in both branches.
unfoldable pub mark_buffer_read : {M : Type 0} → ℕ → Io M (Unit {0})
unfolding checked_one_shl write_reg
mark_buffer_read index =
    if ltb index 32
    then (or_panic (checked_one_shl index) >>= λ b. write_reg ndat1 (λ _. b))
    else if ltb index 64
    then (or_panic (checked_one_shl index) >>= λ b. write_reg ndat2 (λ _. b))
    else return tt

module _ {M : Type 0} (hw : Hardware M) where
  unfoldable pub has_new_data : ℕ → Io M Bool
  unfolding read_reg
  has_new_data index =
      if ltb index 32
      then (read_reg hw ndat1 >>= λ bits. return (not (bit_and bits (1 <<< index) == 0)))
      else if ltb index 64
      then (read_reg hw ndat2 >>= λ bits. return (not (bit_and bits (1 <<< (index - 32)) == 0)))
      else return false

  unfoldable pub has_new_data_checked : ℕ → Io M (NbResult OutOfBounds Bool)
  unfolding has_new_data
  has_new_data_checked index =
      if ltb index 64
      then (has_new_data index >>= λ b. return (ok b))
      else return (other out_of_bounds)

  -- `Ok(self.memory.get(index)…)` of `peek`, once there is new data.
  unfoldable pub get_message : RxDedicatedBuffer → ℕ → Io M (NbResult OutOfBounds M)
  unfolding load_cell
  get_message self index =
      if ltb index self.capacity
      then (load_cell hw index >>= λ m. return (ok m))
      else return (other out_of_bounds)

  unfoldable pub peek : RxDedicatedBuffer → ℕ → Io M (NbResult OutOfBounds M)
  unfolding has_new_data_checked get_message
  peek self index = has_new_data_checked index >>= λ r. elim r [
    | ok new_data ↦ if new_data then get_message self index else return would_block
    | would_block ↦ return would_block
    | other e ↦ return (other e)
  ]

  -- What `receive` does with the result of `peek`.
  unfoldable pub mark_message : ℕ → NbResult OutOfBounds M → Io M (NbResult OutOfBounds M)
  unfolding mark_buffer_read
  mark_message index (ok message) = mark_buffer_read index >> return (ok message)
  mark_message index would_block = return would_block
  mark_message index (other e) = return (other e)

  unfoldable pub receive : RxDedicatedBuffer → ℕ → Io M (NbResult OutOfBounds M)
  unfolding peek mark_message
  receive self index = peek self index >>= mark_message index

-- `receive_any`. The order on the identifiers of messages is `embedded_can`'s, so it is a parameter here: `le x y`
-- says that the identifier of `x` is at most that of `y`.
module _ {M : Type 0} (le : M → M → Bool) where
  -- `min_by_key` keeps the first of several least ones.
  unfoldable pub least : Option (ℕ × M) → ℕ → M → Option (ℕ × M)
  least none i m = some (i, m)
  least (some best) i m = if le best.1 m then some best else some (i, m)

-- What follows the search of `receive_any`.
unfoldable pub mark_least : {M : Type 0} → Option (ℕ × M) → Io M (NbResult Infallible M)
unfolding mark_buffer_read
mark_least none = return would_block
mark_least (some best) = mark_buffer_read best.0 >> return (ok best.1)

module _ {M : Type 0} (hw : Hardware M) (le : M → M → Bool) where
  -- The iterator over the `n` cells from `i` on, with the least message so far.
  unfoldable pub scan : ℕ → ℕ → Option (ℕ × M) → Io M (Option (ℕ × M))
  unfolding has_new_data load_cell least
  scan zero i best = return best
  scan (suc n) i best = has_new_data hw i >>= λ new_data. elim new_data [
    | true ↦ load_cell hw i >>= λ m. scan n (suc i) (least le best i m)
    | false ↦ scan n (suc i) best
  ]

  unfoldable pub receive_any : RxDedicatedBuffer → Io M (NbResult Infallible M)
  unfolding scan mark_least
  receive_any self = scan self.capacity 0 none >>= mark_least

  -- `Iterator::next`: `receive_any().ok()`
  unfoldable pub next : RxDedicatedBuffer → Io M (Option M)
  unfolding receive_any
  next self = receive_any self >>= λ r.
      return (elim r [ ok m ↦ some m | would_block ↦ none | other e ↦ none ])
