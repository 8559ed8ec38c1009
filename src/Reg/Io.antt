-- ===== src/Reg/Io.antt =====
-- Programs over volatile accesses: `Reg::read`, `Reg::write` and `Reg::modify`
-- (mcan/src/reg/generic.rs) and `VolatileCell::{get, set}` on message RAM.
use mcan.Base.{ℕ, List, ◌∷◌, Option, none, some}
use mcan.Bits.{u32}
use mcan.Reg.Block.{Register, reset_value}

-- One access. `load` and `store` are of a cell of the buffer that a component owns.
pub data Event (M : Type 0) : Type 0 where
  read : Register → ℕ → Event M
  write : Register → ℕ → Event M
  load : ℕ → M → Event M
  store : ℕ → M → Event M

-- The accesses so far, the newest first.
abbrev pub Trace : Type 0 → Type 0
Trace M = List (Event M)

-- What the peripheral answers: any function of the history.
pub record Hardware (M : Type 0) : Type 0 where
  pub register : Trace M → Register → ℕ
  pub cell : Trace M → ℕ → M

-- How a call ends. `panic` is a Rust panic (overflow checks and debug assertions are on), `spin` is
-- a busy-wait that used up its fuel.
pub data Outcome {ℓ} (A : Type ℓ) : Type ℓ where
  done : A → Outcome A
  panic spin : Outcome A

abbrev pub Io : Type 0 → Type 0 → Type 0
Io M A = Trace M → Outcome A × Trace M

abbrev pub bind_outcome :
    {M A B : Type 0} → Outcome A × Trace M → (A → Io M B) → Outcome B × Trace M
bind_outcome (done a, t) f = f a t
bind_outcome (panic, t) f = (panic, t)
bind_outcome (spin, t) f = (spin, t)

infixl 5 ◌>>=◌ ◌>>◌
abbrev pub ◌>>=◌ : {M A B : Type 0} → Io M A → (A → Io M B) → Io M B
◌>>=◌ m f t = bind_outcome (m t) f

abbrev pub ◌>>◌ : {M B : Type 0} → Io M (Unit {0}) → Io M B → Io M B
m >> k = m >>= λ _. k

abbrev pub return : {M A : Type 0} → A → Io M A
return a t = (done a, t)

abbrev pub fail : {M A : Type 0} → Io M A
fail t = (panic, t)

-- A checked computation: `none` is a panic.
abbrev pub or_panic : {M A : Type 0} → Option A → Io M A
or_panic none t = (panic, t)
or_panic (some a) t = (done a, t)

-- `Reg::write`: the closure starts from the reset value.
unfoldable pub write_reg : {M : Type 0} → Register → (ℕ → ℕ) → Io M (Unit {0})
unfolding reset_value
write_reg r f t = (done tt, Event.write r (f (reset_value r)) ∷ t)

-- `Reg::reset`
unfoldable pub reset : {M : Type 0} → Register → Io M (Unit {0})
unfolding reset_value
reset r t = (done tt, Event.write r (reset_value r) ∷ t)

-- `Reg::write_with_zero`: the closure starts from 0.
unfoldable pub write_with_zero : {M : Type 0} → Register → (ℕ → ℕ) → Io M (Unit {0})
write_with_zero r f t = (done tt, Event.write r (f 0) ∷ t)

-- `VolatileCell::set` on the cell `i` of message RAM.
unfoldable pub store_cell : {M : Type 0} → ℕ → M → Io M (Unit {0})
store_cell i m t = (done tt, Event.store i m ∷ t)

module _ {M : Type 0} (hw : Hardware M) where
  -- What `Reg::read` returns after the history `t`: a `u32`.
  abbrev pub answer : Trace M → Register → ℕ
  answer t r = u32 (hw.register t r)

  -- `Reg::read` and `R::bits`.
  unfoldable pub read_reg : Register → Io M ℕ
  read_reg r t = (done (answer t r), Event.read r (answer t r) ∷ t)

  -- `Reg::modify`: one read, then one write of what the closure makes of it.
  unfoldable pub modify_reg : Register → (ℕ → ℕ) → Io M (Unit {0})
  modify_reg r f t = (done tt, Event.write r (f (answer t r)) ∷ Event.read r (answer t r) ∷ t)

  -- `VolatileCell::get` on the cell `i` of message RAM.
  unfoldable pub load_cell : ℕ → Io M M
  load_cell i t = (done (hw.cell t i), Event.load i (hw.cell t i) ∷ t)
