-- ===== src/TxEventFifo/Pop.antt =====
-- Taking events out of the FIFO (mcan/src/tx_event_fifo.rs).
use mcan.Base.{
  ℕ, ◌/◌, ◌%◌, ◌^◌, ◌<◌, ◌≡◌, Bool, ◌&&◌, not, ◌∷◌, if◌then◌else◌, arith, ltb, ◌==◌, ◌∙◌, none,
  some, Bool-cases, inl, inr,
}
use mcan.Reg.Block.{txefs, txefa}
use mcan.Reg.Effects.{effects}
use mcan.Reg.Field.{field_reader_lem, field_bits-lowest}
use mcan.Reg.Io.{Event, Trace, Hardware, done, answer}
use mcan.TxEventFifo.{TxEventFifo, effl, efgi, efai, take_event, pop}

module _ {M : Type 0} (hw : Hardware M) where
  -- The fill level and the get index that TXEFS reads.
  abbrev pub level : Trace M → ℕ
  level t = answer hw t txefs % 2 ^ 6

  abbrev pub get_index : Trace M → ℕ
  get_index t = answer hw t txefs / 2 ^ 8 % 2 ^ 5

  abbrev pub after_status : Trace M → Trace M
  after_status t = Event.read txefs (answer hw t txefs) ∷ t

  effl_lem : (t : Trace M) → effl (answer hw t txefs) ≡ level t
  unfolding effl
  effl_lem t = field_reader_lem 0 6 (answer hw t txefs) (omega arith) (omega arith) ∙ omega arith

  efgi_lem : (t : Trace M) → efgi (answer hw t txefs) ≡ get_index t
  unfolding efgi
  efgi_lem t = field_reader_lem 8 5 (answer hw t txefs) (omega arith) (omega arith)

efai_lem : (index : ℕ) → index < 32 → efai index 0 ≡ index
unfolding efai
efai_lem index small = field_bits-lowest 5 index (omega arith) (omega arith)

module _ {M : Type 0} (hw : Hardware M) (self : TxEventFifo) where
  -- There is an event to take: the FIFO is not empty and the get index is inside the memory.
  abbrev pub is_available : Trace M → Bool
  is_available t = not (level hw t == 0) && ltb (get_index hw t) self.capacity

  -- `pop` never panics. It returns the event in the cell of the get index and acknowledges exactly that
  -- index if the FIFO is not empty and the index is inside the memory. Otherwise it returns nothing and
  -- writes nothing.
  pub pop_lem :
      (t : Trace M)
      → ((pop hw self t).0
          ≡ done (
              if is_available t then some (hw.cell (after_status hw t) (get_index hw t)) else none))
        × (effects (pop hw self t).1 ≡ (
            if is_available t then Event.write txefa (get_index hw t) ∷ effects t else effects t))
  unfolding pop take_event
  pop_lem t = elim (Bool-cases (level hw t == 0)) [
    | inl empty ↦ ground (arith, effl_lem hw t, empty)
    | inr full ↦ elim (Bool-cases (ltb (get_index hw t) self.capacity)) [
      | inl inside ↦ ground (
        arith,
        effl_lem hw t,
        efgi_lem hw t,
        full,
        inside,
        efai_lem (get_index hw t) (omega arith),
      )
      | inr outside ↦ ground (arith, effl_lem hw t, efgi_lem hw t, full, outside)
    ]
  ]

  -- The accesses of `pop`: from an empty FIFO, and from one with an event.
  pub pop-empty : (t : Trace M) → level hw t ≡ 0 → pop hw self t ≡ (done none, after_status hw t)
  unfolding pop
  pop-empty t empty = ground (arith, effl_lem hw t, empty)

  pub pop-run :
      (t : Trace M)
      → 0 < level hw t
      → get_index hw t < self.capacity
      → let event = hw.cell (after_status hw t) (get_index hw t) in
        pop hw self t ≡ (
          done (some event),
          Event.write txefa (get_index hw t)
              ∷ (Event.load (get_index hw t) event ∷ after_status hw t),
        )
  unfolding pop take_event
  pop-run t full inside =
      ground (arith, effl_lem hw t, efgi_lem hw t, efai_lem (get_index hw t) (omega arith))
