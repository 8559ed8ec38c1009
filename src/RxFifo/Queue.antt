-- ===== src/RxFifo/Queue.antt =====
-- The FIFO as a queue (mcan/src/rx_fifo.rs), for a peripheral that keeps the messages in order.
use mcan.Base.{
  ℕ, zero, suc, ◌<◌, ◌≡◌, refl, List, [], ◌∷◌, ◌++◌, length, drop, length-append, arith, ◌∙◌, ap,
  sym,
}
use mathlib.Core.List.{append-nil}
use mcan.HardwareFifo.{IsFifo, IsRest, after_take, read-IsRest, take-IsRest}
use mcan.Nb.{NbResult, ok, would_block, Infallible}
use mcan.Reg.Io.{Trace, Hardware, Outcome, done}
use mcan.RxFifo.{RxFifo, status, acknowledge, receive, drain}
use mcan.RxFifo.Receive.{level, get_index, after_status, receive-run, receive-empty}

-- The registers and the memory of the FIFO keep the messages of a queue.
abbrev pub IsQueue :
    {M : Type 0} → Hardware M → RxFifo → (Trace M → List M) → (Trace M → List M) → Type 0
IsQueue hw self arrived queue =
    IsFifo hw (acknowledge self.fifo) self.capacity (level hw self) (get_index hw self) arrived
      queue

-- What a queue gives: its oldest message.
abbrev pub first : {M : Type 0} → List M → NbResult Infallible M
first [] = would_block
first (m ∷ ms) = ok m

module _ {M : Type 0} (hw : Hardware M) (self : RxFifo) (arrived queue : Trace M → List M)
    (is_queue : IsQueue hw self arrived queue) where
  -- What `receive` does to a queue that is `q`.
  abbrev Receives : List M → Trace M → Type 0
  Receives q t =
      ((receive hw self t).0 ≡ done (first q))
      × (new : List M) × (arrived (receive hw self t).1 ≡ arrived t ++ new)
      × (queue (receive hw self t).1 ≡ drop 1 q ++ new)

  abbrev Ending : Type 0
  Ending = Outcome (NbResult Infallible M) × Trace M

  receives :
      (q : List M) (t u : Trace M)
      → receive hw self t ≡ (done (first q), u)
      → IsRest hw
          (acknowledge self.fifo)
          self.capacity
          (level hw self)
          (get_index hw self)
          arrived
          queue
          is_queue
          (drop 1 q)
          t
          u
      → Receives q t
  receives q t u run rest =
      let trace : (receive hw self t).1 ≡ u = ap (λ (x : Ending). x.1) run in
      (ap (λ (x : Ending). x.0) run, rest.0, ap arrived trace ∙ rest.1, ap queue trace ∙ rest.2)

  receive-from : (q : List M) (t : Trace M) → queue t ≡ q → Receives q t
  receive-from [] t e =
      receives [] t (after_status hw self t)
        (receive-empty hw self t (is_queue.fill_level t ∙ ap length e))
        (read-IsRest hw (acknowledge self.fifo) self.capacity (level hw self) (get_index hw self)
          arrived queue is_queue (status self.fifo) [] t e)
  receive-from (m ∷ ms) t e =
      let full : 0 < length (queue t) = omega (arith, ap (length {A = M}) e) in
      let taken =
        take-IsRest hw (acknowledge self.fifo) self.capacity (level hw self) (get_index hw self)
          arrived queue is_queue (status self.fifo) m ms t e in
      let run =
        receive-run hw self t (omega (arith, is_queue.fill_level t, full))
          (is_queue.inside t full) in
      receives (m ∷ ms) t _
        (run
          ∙ ap
              (λ (x : M). (
                done (ok x),
                after_take hw (acknowledge self.fifo) self.capacity (level hw self)
                    (get_index hw self) arrived queue is_queue (status self.fifo) t,
              ))
              (sym taken.0))
        taken.1

  -- For a peripheral that keeps the messages in order, `receive` takes the oldest message of the queue, or
  -- returns `WouldBlock` if there is none, and the queue afterwards is the rest of it, followed by exactly the
  -- messages that arrived meanwhile.
  pub receive-first :
      (t : Trace M)
      → ((receive hw self t).0 ≡ done (first (queue t)))
        × (new : List M) × (arrived (receive hw self t).1 ≡ arrived t ++ new)
        × (queue (receive hw self t).1 ≡ drop 1 (queue t) ++ new)
  receive-first t = receive-from (queue t) t refl

  no_more : (xs ys zs : List M) → xs ≡ ys ++ zs → xs ≡ ys → zs ≡ []
  no_more xs ys [] e f = refl
  no_more xs ys (z ∷ zs) e f =
      absurd
        (omega (arith, ap (length {A = M}) e, ap (length {A = M}) f, length-append ys (z ∷ zs)))

  abbrev Drains : ℕ → List M → Trace M → Type 0
  Drains fuel q t = (u : Trace M) × (drain hw self fuel t ≡ (done q, u)) × (queue u ≡ [])

  drain-from :
      (fuel : ℕ) (q : List M) (t : Trace M)
      → ((u : Trace M) → arrived u ≡ arrived [])
      → length q < fuel
      → queue t ≡ q
      → Drains fuel q t
  unfolding drain
  drain-from zero q t quiet enough e = absurd (omega arith)
  drain-from (suc fuel) [] t quiet enough e =
      let r = receive-from [] t e in
      let T = (receive hw self t).1 in
      let run : receive hw self t ≡ (done would_block, T) =
        ap (λ (o : Outcome (NbResult Infallible M)). (o, T)) r.0 in
      let none_new = no_more (arrived T) (arrived t) r.1 r.2 (quiet T ∙ sym (quiet t)) in
      (T, rw run, r.3 ∙ none_new)
  drain-from (suc fuel) (m ∷ ms) t quiet enough e =
      let r = receive-from (m ∷ ms) t e in
      let T = (receive hw self t).1 in
      let run : receive hw self t ≡ (done (ok m), T) =
        ap (λ (o : Outcome (NbResult Infallible M)). (o, T)) r.0 in
      let none_new = no_more (arrived T) (arrived t) r.1 r.2 (quiet T ∙ sym (quiet t)) in
      let rest = r.3 ∙ (ap (λ (n : List M). ms ++ n) none_new ∙ append-nil ms) in
      let ih = drain-from fuel ms T quiet (omega arith) rest in (ih.0, rw (run, ih.1), ih.2)

  -- For a peripheral that keeps the messages in order, and if none arrives meanwhile, the loop over the iterator
  -- ends within one more round than there are messages in the queue, yields all of these in their order, and
  -- leaves the queue empty.
  pub drain_lem :
      (fuel : ℕ) (t : Trace M)
      → ((u : Trace M) → arrived u ≡ arrived [])
      → length (queue t) < fuel
      → (u : Trace M) × (drain hw self fuel t ≡ (done (queue t), u)) × (queue u ≡ [])
  drain_lem fuel t quiet enough = drain-from fuel (queue t) t quiet enough refl
