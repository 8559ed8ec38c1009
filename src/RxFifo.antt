-- ===== src/RxFifo.antt =====
-- `RxFifo` (mcan/src/rx_fifo.rs) for messages of the type `M`.
pub mod Receive
pub mod Queue
use mcan.Base.{ℕ, zero, suc, List, [], ◌∷◌, Bool, ltb, ◌==◌, if◌then◌else◌, Option, none, some}
use mcan.Nb.{NbResult, ok, would_block, other, Infallible}
use mcan.Reg.Block.{Register, rxf0_s, rxf0_a, rxf1_s, rxf1_a}
use mcan.Reg.Field.{field_reader, field_bits}
use mcan.Reg.Io.{Hardware, Io, ◌>>=◌, ◌>>◌, return, fail, spin, write_reg, read_reg, load_cell}
use mcan.Bits.{u8}

-- `Fifo0` and `Fifo1`, and their registers RXFS and RXFA.
pub data Fifo : Type 0 where
  fifo0 fifo1 : Fifo

unfoldable pub status : Fifo → Register
status fifo0 = rxf0_s
status fifo1 = rxf1_s

unfoldable pub acknowledge : Fifo → Register
acknowledge fifo0 = rxf0_a
acknowledge fifo1 = rxf1_a

-- `RXFS.FFL`, `RXFS.FGI` and the writer of `RXFA.FAI`.
unfoldable pub ffl : ℕ → ℕ
unfolding field_reader
ffl bits = field_reader 0 0x7f bits

unfoldable pub fgi : ℕ → ℕ
unfolding field_reader
fgi bits = field_reader 8 0x3f bits

unfoldable pub fai : ℕ → ℕ → ℕ
unfolding field_bits
fai value bits = field_bits 6 0 value bits

-- `memory`: the number of its cells.
pub record RxFifo : Type 0 where
  pub fifo : Fifo
  pub capacity : ℕ

-- The slice index `memory[i].get()`, which panics out of range.
unfoldable pub index_cell : {M : Type 0} → Hardware M → ℕ → ℕ → Io M M
unfolding load_cell
index_cell hw capacity i = if ltb i capacity then load_cell hw i else fail

module _ {M : Type 0} (hw : Hardware M) where
  unfoldable pub len : RxFifo → Io M ℕ
  unfolding read_reg ffl status
  len self = read_reg hw (status self.fifo) >>= λ s. return (ffl s)

  unfoldable pub is_empty : RxFifo → Io M Bool
  unfolding len
  is_empty self = len self >>= λ n. return (n == 0)

  -- What `receive` does once there is a message, at the get index.
  unfoldable pub take_message : RxFifo → ℕ → Io M (NbResult Infallible M)
  unfolding index_cell fai write_reg acknowledge
  take_message self get_index = do
    message ← index_cell hw self.capacity get_index
    write_reg (acknowledge self.fifo) (fai (u8 get_index))
    return (ok message)

  unfoldable pub receive : RxFifo → Io M (NbResult Infallible M)
  unfolding read_reg ffl fgi status take_message
  receive self = do
    s ← read_reg hw (status self.fifo)
    if ffl s == 0 then return would_block else take_message self (fgi s)

  -- `Iterator::next`: `receive().ok()`
  unfoldable pub next : RxFifo → Io M (Option M)
  unfolding receive
  next self =
      receive self >>= λ r. return (elim r [ ok m ↦ some m | would_block ↦ none | other e ↦ none ])

  -- `for message in fifo { … }`: the messages that the iterator yields until `None`, in order.
  unfoldable pub drain : RxFifo → ℕ → Io M (List M)
  unfolding next
  drain self zero t = (spin, t)
  drain self (suc fuel) t =
      (next self >>= λ o. elim o [
        | none ↦ return []
        | some m ↦ drain self fuel >>= λ ms. return (m ∷ ms)
      ])
        t
