-- ===== src/Tests/Fifo.antt =====
-- The receive FIFO at a concrete peripheral: three messages, each removed when its index is acknowledged.
use mcan.Base.{
  ℕ, zero, suc, ◌+◌, ◌*◌, ◌/◌, ◌%◌, ◌^◌, ◌≤◌, ◌<◌, ◌≡◌, refl, Bool, if◌then◌else◌, List, [], ◌∷◌,
  ◌++◌, some, length, get_elem?, get_or, drop, arith, ◌∙◌, ap, sym,
}
use mathlib.Core.List.{append-nil}
use mcan.Nb.{ok}
use mcan.Reg.Block.{Register-discrete}
use mcan.Reg.Io.{Trace, Hardware, done}
use mcan.RxFifo.{RxFifo, fifo0, acknowledge, receive, drain}
use mcan.RxFifo.Receive.{get_index}
use mcan.HardwareFifo.{acknowledges}
use mcan.Reg.Block.{txefa, Register}
use mcan.TxEventFifo.{TxEventFifo, pop}
use mcan.TxEventFifo.Pop as Pop
use mcan.TxEventFifo.Queue as Events
use mcan.TxEventFifo.Queue.{pop-oldest}
use mcan.RxFifo.Queue.{IsQueue, receive-first, drain_lem}

abbrev messages : List ℕ
messages = 10 ∷ 20 ∷ 30 ∷ []

-- The number of acknowledgements.
abbrev taken : Register → Trace ℕ → ℕ
taken ack [] = 0
taken ack (e ∷ t) = if acknowledges ack e then suc (taken ack t) else taken ack t

abbrev queue : Register → Trace ℕ → List ℕ
queue ack t = drop (taken ack t) messages

abbrev arrived : Trace ℕ → List ℕ
arrived t = messages

abbrev three : Register → Hardware ℕ
three ack = record {
  register = λ t r. length (queue ack t) + 256 * taken ack t;
  cell = λ t i. get_or messages i 0;
}

abbrev fifo : RxFifo
fifo = record { fifo = fifo0; capacity = 3 }

drop-nil : (n : ℕ) → drop {A = ℕ} n [] ≡ []
drop-nil zero = refl
drop-nil (suc n) = refl

few : (n : ℕ) → length (drop n messages) ≤ 3
few zero = omega arith
few (suc zero) = omega arith
few (suc (suc zero)) = omega arith
few (suc (suc (suc n))) = omega (arith, ap (length {A = ℕ}) (drop-nil n))

some_left : (n : ℕ) → 0 < length (drop n messages) → n < 3
some_left zero h = omega arith
some_left (suc zero) h = omega arith
some_left (suc (suc zero)) h = omega arith
some_left (suc (suc (suc n))) h = absurd (omega (arith, ap (length {A = ℕ}) (drop-nil n)))

head : (n : ℕ) → n < 3 → get_elem? (drop n messages) 0 ≡ some (get_or messages n 0)
head zero h = refl
head (suc zero) h = refl
head (suc (suc zero)) h = refl
head (suc (suc (suc n))) h = absurd (omega arith)

tail : (n : ℕ) → drop (suc n) messages ≡ drop 1 (drop n messages)
tail zero = refl
tail (suc zero) = refl
tail (suc (suc zero)) = refl
tail (suc (suc (suc n))) = sym (ap (drop {A = ℕ} 1) (drop-nil n))

abbrev fai_register : Register
fai_register = acknowledge fifo0

index :
    (t : Trace ℕ)
    → 0 < length (queue fai_register t)
    → get_index (three fai_register) fifo t ≡ taken fai_register t
index t h = omega (arith, some_left (taken fai_register t) h, few (taken fai_register t))

three-IsQueue : IsQueue (three fai_register) fifo arrived (queue fai_register)
unfolding acknowledge Register-discrete
three-IsQueue = record {
  fill_level = λ t. omega (arith, few (taken fai_register t));
  inside = λ t h. omega (arith, index t h, some_left (taken fai_register t) h);
  oldest = λ t h.
      head (taken fai_register t) (some_left (taken fai_register t) h)
      ∙ ap (λ (i : ℕ). some (get_or messages i 0)) (sym (index t h));
  waits = λ e t h. (
    [],
    sym (append-nil messages),
    ap
          (λ (b : Bool).
            drop (if b then suc (taken fai_register t) else taken fai_register t) messages)
          h
        ∙ sym (append-nil (queue fai_register t)),
  );
  stays = λ e t h full.
      ap
        (λ (b : Bool).
          let n : ℕ = if b then suc (taken fai_register t) else taken fai_register t in
          (length (drop n messages) + 256 * n) % 2 ^ 32 / 2 ^ 8 % 2 ^ 6)
        h;
  removes = λ t full. (
    [],
    sym (append-nil messages),
    tail (taken fai_register t) ∙ sym (append-nil (drop 1 (queue fai_register t))),
  );
}

abbrev events : TxEventFifo
events = record { capacity = 3 }

event_index :
    (t : Trace ℕ) → 0 < length (queue txefa t) → Pop.get_index (three txefa) t ≡ taken txefa t
event_index t h = omega (arith, some_left (taken txefa t) h, few (taken txefa t))

events-IsQueue : Events.IsQueue (three txefa) events arrived (queue txefa)
unfolding Register-discrete
events-IsQueue = record {
  fill_level = λ t. omega (arith, few (taken txefa t));
  inside = λ t h. omega (arith, event_index t h, some_left (taken txefa t) h);
  oldest = λ t h.
      head (taken txefa t) (some_left (taken txefa t) h)
      ∙ ap (λ (i : ℕ). some (get_or messages i 0)) (sym (event_index t h));
  waits = λ e t h. (
    [],
    sym (append-nil messages),
    ap (λ (b : Bool). drop (if b then suc (taken txefa t) else taken txefa t) messages) h
        ∙ sym (append-nil (queue txefa t)),
  );
  stays = λ e t h full.
      ap
        (λ (b : Bool).
          let n : ℕ = if b then suc (taken txefa t) else taken txefa t in
          (length (drop n messages) + 256 * n) % 2 ^ 32 / 2 ^ 8 % 2 ^ 5)
        h;
  removes = λ t full. (
    [],
    sym (append-nil messages),
    tail (taken txefa t) ∙ sym (append-nil (drop 1 (queue txefa t))),
  );
}

abbrev start : Trace ℕ
start = []

receive-first_example :
    ((receive (three fai_register) fifo start).0 ≡ done (ok 10))
    × (new : List ℕ) × (arrived (receive (three fai_register) fifo start).1 ≡ messages ++ new)
    × (queue fai_register (receive (three fai_register) fifo start).1 ≡ (20 ∷ 30 ∷ []) ++ new)
receive-first_example =
    receive-first (three fai_register) fifo arrived (queue fai_register) three-IsQueue start

drain_lem_example :
    (u : Trace ℕ) × (drain (three fai_register) fifo 4 start ≡ (done messages, u))
    × (queue fai_register u ≡ [])
drain_lem_example =
    drain_lem (three fai_register) fifo arrived (queue fai_register) three-IsQueue 4 start
      (λ u. refl) (omega arith)

pop-oldest_example :
    ((pop (three txefa) events start).0 ≡ done (some 10))
    × (new : List ℕ) × (arrived (pop (three txefa) events start).1 ≡ messages ++ new)
    × (queue txefa (pop (three txefa) events start).1 ≡ (20 ∷ 30 ∷ []) ++ new)
pop-oldest_example = pop-oldest (three txefa) events arrived (queue txefa) events-IsQueue start
