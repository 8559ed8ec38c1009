-- ===== src/TxEventFifo/Queue.antt =====
-- The transmit event FIFO as a queue (mcan/src/tx_event_fifo.rs), for a peripheral that keeps the events in order.
use mcan.Base.{
  ◌<◌, ◌≡◌, refl, List, [], ◌∷◌, ◌++◌, length, drop, Option, none, some, arith, ◌∙◌, ap, sym,
}
use mcan.HardwareFifo.{IsFifo, IsRest, after_take, read-IsRest, take-IsRest}
use mcan.Reg.Block.{txefs, txefa}
use mcan.Reg.Io.{Trace, Hardware, Outcome, done}
use mcan.TxEventFifo.{TxEventFifo, pop}
use mcan.TxEventFifo.Pop.{level, get_index, after_status, pop-empty, pop-run}

-- The registers and the memory of the FIFO keep the events of a queue.
abbrev pub IsQueue :
    {M : Type 0} → Hardware M → TxEventFifo → (Trace M → List M) → (Trace M → List M) → Type 0
IsQueue hw self arrived queue =
    IsFifo hw txefa self.capacity (level hw) (get_index hw) arrived queue

-- The oldest event of a queue.
abbrev pub oldest_event : {M : Type 0} → List M → Option M
oldest_event [] = none
oldest_event (m ∷ ms) = some m

module _ {M : Type 0} (hw : Hardware M) (self : TxEventFifo) (arrived queue : Trace M → List M)
    (is_queue : IsQueue hw self arrived queue) where
  -- What `pop` does to a queue that is `q`.
  abbrev Pops : List M → Trace M → Type 0
  Pops q t =
      ((pop hw self t).0 ≡ done (oldest_event q))
      × (new : List M) × (arrived (pop hw self t).1 ≡ arrived t ++ new)
      × (queue (pop hw self t).1 ≡ drop 1 q ++ new)

  abbrev Ending : Type 0
  Ending = Outcome (Option M) × Trace M

  pops :
      (q : List M) (t u : Trace M)
      → pop hw self t ≡ (done (oldest_event q), u)
      → IsRest hw txefa self.capacity
          (level hw)
          (get_index hw)
          arrived
          queue
          is_queue
          (drop 1 q)
          t
          u
      → Pops q t
  pops q t u run rest =
      let trace : (pop hw self t).1 ≡ u = ap (λ (x : Ending). x.1) run in
      (ap (λ (x : Ending). x.0) run, rest.0, ap arrived trace ∙ rest.1, ap queue trace ∙ rest.2)

  pop-from : (q : List M) (t : Trace M) → queue t ≡ q → Pops q t
  pop-from [] t e =
      pops [] t (after_status hw t) (pop-empty hw self t (is_queue.fill_level t ∙ ap length e)) (
        read-IsRest hw txefa self.capacity (level hw) (get_index hw) arrived queue is_queue txefs []
          t e)
  pop-from (m ∷ ms) t e =
      let full : 0 < length (queue t) = omega (arith, ap (length {A = M}) e) in
      let taken =
        take-IsRest hw txefa self.capacity (level hw) (get_index hw) arrived queue is_queue txefs m
          ms t e in
      let run =
        pop-run hw self t (omega (arith, is_queue.fill_level t, full)) (is_queue.inside t full) in
      pops (m ∷ ms) t _
        (run
          ∙ ap
              (λ (x : M). (
                done (some x),
                after_take hw txefa self.capacity (level hw) (get_index hw) arrived queue is_queue
                    txefs t,
              ))
              (sym taken.0))
        taken.1

  -- For a peripheral that keeps the events in order, `pop` takes the oldest event of the queue, or returns `None`
  -- if there is none, and the queue afterwards is the rest of it, followed by exactly the events that arrived
  -- meanwhile.
  pub pop-oldest :
      (t : Trace M)
      → ((pop hw self t).0 ≡ done (oldest_event (queue t)))
        × (new : List M) × (arrived (pop hw self t).1 ≡ arrived t ++ new)
        × (queue (pop hw self t).1 ≡ drop 1 (queue t) ++ new)
  pop-oldest t = pop-from (queue t) t refl
