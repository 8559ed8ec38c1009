-- ===== src/HardwareFifo.antt =====
-- A FIFO of the peripheral as a queue: what the data sheet says of the receive FIFOs and of the transmit event FIFO
-- (mcan/src/rx_fifo.rs, mcan/src/tx_event_fifo.rs), and what taking an element does.
use mcan.Base.{
  ℕ, ◌<◌, ◌≡◌, refl, Bool, true, false, List, ◌∷◌, ◌++◌, length, get_elem?, drop, some, arith, ◌∙◌,
  ap, subst,
}
use mathlib.Core.List.{append_assoc}
use mathlib.Core.Logic.{ite}
use mcan.Reg.Block.{Register, Register-discrete}
use mcan.Reg.Io.{Event, Trace, Hardware, answer}

-- An access that acknowledges an element, by a write to the register `ack`.
abbrev pub acknowledges : {M : Type 0} → Register → Event M → Bool
acknowledges ack (Event.write r v) = ite (Register-discrete r ack) true false
acknowledges ack (Event.read r v) = false
acknowledges ack (Event.load i m) = false
acknowledges ack (Event.store i m) = false

-- After the history `t` the elements `arrived t` have been put into the FIFO and `queue t` are in it, the oldest
-- first; `level t` and `index t` are the fill level and the index of the oldest one that the status register has.
-- At every access more elements may arrive behind the others, and an acknowledgement of the oldest one removes it.
pub record IsFifo {M : Type 0} (hw : Hardware M) (ack : Register) (capacity : ℕ)
    (level index : Trace M → ℕ) (arrived queue : Trace M → List M) : Type 0 where
  pub fill_level : (t : Trace M) → level t ≡ length (queue t)
  pub inside : (t : Trace M) → 0 < length (queue t) → index t < capacity
  pub oldest :
      (t : Trace M) → 0 < length (queue t) → get_elem? (queue t) 0 ≡ some (hw.cell t (index t))
  pub waits :
      (e : Event M) (t : Trace M)
      → acknowledges ack e ≡ false
      → (new : List M) × (arrived (e ∷ t) ≡ arrived t ++ new) × (queue (e ∷ t) ≡ queue t ++ new)
  pub stays :
      (e : Event M) (t : Trace M)
      → acknowledges ack e ≡ false
      → 0 < length (queue t)
      → index (e ∷ t) ≡ index t
  pub removes :
      (t : Trace M)
      → 0 < length (queue t)
      → let t' : Trace M = Event.write ack (index t) ∷ t in
        (new : List M) × (arrived t' ≡ arrived t ++ new) × (queue t' ≡ drop 1 (queue t) ++ new)

module _ {M : Type 0} (hw : Hardware M) (ack : Register) (capacity : ℕ) (level index : Trace M → ℕ)
    (arrived queue : Trace M → List M)
    (is_fifo : IsFifo hw ack capacity level index arrived queue) where
  -- After the history `u` the FIFO has the elements `rest`, and those that arrived since the history `t`.
  abbrev pub IsRest : List M → Trace M → Trace M → Type 0
  IsRest rest t u = (new : List M) × (arrived u ≡ arrived t ++ new) × (queue u ≡ rest ++ new)

  regroup : (a b c d : List M) → ((a ++ b) ++ c) ++ d ≡ a ++ (b ++ (c ++ d))
  regroup a b c d = simp append_assoc

  module _ (status : Register) where
    -- The history after the status is read, and after an element is taken.
    abbrev pub after_read : Trace M → Trace M
    after_read t = Event.read status (answer hw t status) ∷ t

    abbrev pub after_take : Trace M → Trace M
    after_take t =
        let i = index t in
        Event.write ack i ∷ Event.load i (hw.cell (after_read t) i) ∷ after_read t

    pub read-IsRest : (q : List M) (t : Trace M) → queue t ≡ q → IsRest q t (after_read t)
    read-IsRest q t e =
        let w = is_fifo.waits (Event.read status (answer hw t status)) t refl in
        (w.0, w.1, w.2 ∙ ap (λ (q : List M). q ++ w.0) e)

    -- Reading the status, the cell of the index and acknowledging it takes the oldest element.
    pub take-IsRest :
        (m : M) (ms : List M) (t : Trace M)
        → queue t ≡ m ∷ ms
        → (m ≡ hw.cell (after_read t) (index t)) × IsRest ms t (after_take t)
    take-IsRest m ms t e =
        let i = index t in
        let full : 0 < length (queue t) = omega (arith, ap (length {A = M}) e) in
        let t1 : Trace M = after_read t in
        let w1 = read-IsRest (m ∷ ms) t e in
        let full1 : 0 < length (queue t1) = omega (arith, ap (length {A = M}) w1.2) in
        let s1 : index t1 ≡ i =
          is_fifo.stays (Event.read status (answer hw t status)) t refl full in
        let here = is_fifo.oldest t1 full1 in
        let cell : m ≡ hw.cell t1 i = ground (arith, here, w1.2, s1) in
        let e1 : Event M = Event.load i (hw.cell t1 i) in
        let w2 = is_fifo.waits e1 t1 refl in
        let q2 : queue (e1 ∷ t1) ≡ m ∷ ((ms ++ w1.0) ++ w2.0) =
          w2.2 ∙ ap (λ (q : List M). q ++ w2.0) w1.2 in
        let s2 : index (e1 ∷ t1) ≡ i = is_fifo.stays e1 t1 refl full1 ∙ s1 in
        let w3 =
          subst
            (λ (j : ℕ). IsRest (drop 1 (queue (e1 ∷ t1))) (e1 ∷ t1) (Event.write ack j ∷ e1 ∷ t1))
            s2 (is_fifo.removes (e1 ∷ t1) (omega (arith, ap (length {A = M}) q2))) in
        (
          cell,
          (
            w1.0 ++ (w2.0 ++ w3.0),
            w3.1
                ∙ (ap (λ (q : List M). q ++ w3.0) (w2.1 ∙ ap (λ (q : List M). q ++ w2.0) w1.1)
                    ∙ regroup (arrived t) w1.0 w2.0 w3.0),
            w3.2 ∙ (ap (λ (q : List M). drop 1 q ++ w3.0) q2 ∙ regroup ms w1.0 w2.0 w3.0),
          ),
        )
