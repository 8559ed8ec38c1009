-- ===== src/RxFifo/Receive.antt =====
-- Receiving from the FIFO (mcan/src/rx_fifo.rs).
use mcan.Base.{
  ℕ, ◌/◌, ◌%◌, ◌^◌, ◌<◌, ◌≡◌, ◌∷◌, if◌then◌else◌, arith, ◌==◌, ◌∙◌, Bool-cases, inl, inr,
}
use mcan.Bits.{u8}
use mcan.Nb.{ok, would_block}
use mcan.Reg.Effects.{effects}
use mcan.Reg.Field.{field_reader_lem, field_bits-lowest}
use mcan.Reg.Io.{Event, Trace, Hardware, done, answer}
use mcan.RxFifo.{RxFifo, status, acknowledge, ffl, fgi, fai, take_message, receive, index_cell}

module _ {M : Type 0} (hw : Hardware M) (self : RxFifo) where
  -- The fill level and the get index that the status register reads.
  abbrev pub level : Trace M → ℕ
  level t = answer hw t (status self.fifo) % 2 ^ 7

  abbrev pub get_index : Trace M → ℕ
  get_index t = answer hw t (status self.fifo) / 2 ^ 8 % 2 ^ 6

  abbrev pub after_status : Trace M → Trace M
  after_status t = Event.read (status self.fifo) (answer hw t (status self.fifo)) ∷ t

  ffl_lem : (t : Trace M) → ffl (answer hw t (status self.fifo)) ≡ level t
  unfolding ffl
  ffl_lem t =
      field_reader_lem 0 7 (answer hw t (status self.fifo)) (omega arith) (omega arith)
      ∙ omega arith

  fgi_lem : (t : Trace M) → fgi (answer hw t (status self.fifo)) ≡ get_index t
  unfolding fgi
  fgi_lem t = field_reader_lem 8 6 (answer hw t (status self.fifo)) (omega arith) (omega arith)

  fai_lem : (index : ℕ) → index < 64 → fai (u8 index) 0 ≡ index
  unfolding fai
  fai_lem index small =
      let e : u8 index ≡ index = omega arith in
      rw e (field_bits-lowest 6 index (omega arith) (omega arith))

  take_message_lem :
      (index : ℕ) (t : Trace M)
      → index < 64
      → index < self.capacity
      → take_message hw self index t ≡ (
        done (ok (hw.cell t index)),
        Event.write (acknowledge self.fifo) index ∷ (Event.load index (hw.cell t index) ∷ t),
      )
  unfolding take_message index_cell
  take_message_lem index t small inside = ground (arith, fai_lem index small)

  -- The accesses of `receive`: to an empty FIFO, and to one with a message.
  pub receive-empty :
      (t : Trace M) → level t ≡ 0 → receive hw self t ≡ (done would_block, after_status t)
  unfolding receive
  receive-empty t empty = ground (arith, ffl_lem t, empty)

  pub receive-run :
      (t : Trace M)
      → 0 < level t
      → get_index t < self.capacity
      → let message = hw.cell (after_status t) (get_index t) in
        receive hw self t ≡ (
          done (ok message),
          Event.write (acknowledge self.fifo) (get_index t)
              ∷ (Event.load (get_index t) message ∷ after_status t),
        )
  unfolding receive
  receive-run t full inside = ground (
    arith,
    ffl_lem t,
    fgi_lem t,
    take_message_lem (get_index t) (after_status t) (omega arith) inside,
  )

  -- `receive` returns `WouldBlock` and writes nothing if the status register reports an empty FIFO.
  -- Otherwise, with the get index inside the memory, it returns the message in the cell of the get index
  -- and acknowledges exactly that index.
  pub receive_lem :
      (t : Trace M)
      → get_index t < self.capacity
      → ((receive hw self t).0
          ≡ done
              (if level t == 0 then would_block else ok (hw.cell (after_status t) (get_index t))))
        × (effects (receive hw self t).1 ≡ (
            if level t == 0
            then effects t
            else Event.write (acknowledge self.fifo) (get_index t) ∷ effects t))
  unfolding receive
  receive_lem t inside = elim (Bool-cases (level t == 0)) [
    | inl empty ↦ ground (arith, ffl_lem t, empty)
    | inr full ↦ ground (
      arith,
      ffl_lem t,
      fgi_lem t,
      full,
      take_message_lem (get_index t) (after_status t) (omega arith) inside,
    )
  ]
