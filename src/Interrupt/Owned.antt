-- ===== src/Interrupt/Owned.antt =====
-- `OwnedInterruptSet` (mcan/src/interrupt.rs) and its type states (mcan/src/interrupt/state.rs).
pub mod Split
pub mod Sharing
pub mod Flags
use mcan.Base.{ℕ, Bool, bit_and, bit_or, ◌==◌, if◌then◌else◌, not}
use mcan.Bits.{bit_not}
use mcan.FlagIter.{Iter, iter}
use mcan.Reg.Block.{Register, ir}
use mcan.Reg.Io.{Hardware, Io, ◌>>=◌, ◌>>◌, return, fail, read_reg, write_reg}

pub data State : Type 0 where
  dynamic disabled enabled_line0 enabled_line1 : State

-- The traits `Static` and `MaybeEnabled`, as the states that implement them.
pub data Static : State → Type 0 where
  disabled : Static State.disabled
  enabled_line0 : Static State.enabled_line0
  enabled_line1 : Static State.enabled_line1

pub data MaybeEnabled : State → Type 0 where
  dynamic : MaybeEnabled State.dynamic
  enabled_line0 : MaybeEnabled State.enabled_line0
  enabled_line1 : MaybeEnabled State.enabled_line1

-- `OwnedInterruptSet<Id, State>`; the set is a `u32`.
pub record OwnedInterruptSet (S : State) : Type 0 where
  pub interrupts : ℕ

-- What `split` returns: the set split out, or `MaskError` with the interrupts that are missing.
pub data SplitResult (S : State) : Type 0 where
  ok : OwnedInterruptSet S → SplitResult S
  mask_error : ℕ → SplitResult S

unfoldable pub empty : (S : State) → OwnedInterruptSet S
empty S = record { interrupts = 0 }

module _ {S : State} where
  -- `split_leniently`: the set split out, and `self` after the call.
  unfoldable pub split_leniently :
      OwnedInterruptSet S → ℕ → OwnedInterruptSet S × OwnedInterruptSet S
  split_leniently self subset =
      let remaining = bit_and self.interrupts (bit_not 32 subset) in
      let split_out = bit_and self.interrupts subset in
      (record { interrupts = split_out }, record { interrupts = remaining })

  unfoldable pub split : OwnedInterruptSet S → ℕ → SplitResult S × OwnedInterruptSet S
  unfolding split_leniently
  split self subset =
      let missing = bit_and (bit_not 32 self.interrupts) subset in
      let (out, rest) = split_leniently self subset in
      if not (missing == 0) then (mask_error missing, self) else (ok out, rest)

  -- `join`; a failed debug assertion is a panic.
  unfoldable pub join :
      {M : Type 0} → OwnedInterruptSet S → OwnedInterruptSet S → Io M (OwnedInterruptSet S)
  join self other =
      if bit_and self.interrupts other.interrupts == 0
      then return (record { interrupts = bit_or self.interrupts other.interrupts })
      else fail

  unfoldable pub convert : (T : State) → OwnedInterruptSet S → OwnedInterruptSet T
  convert T self = record { interrupts = self.interrupts }

  -- `From<OwnedInterruptSet<Id, State>> for OwnedInterruptSet<Id>`, for a static state.
  unfoldable pub from_static : Static S → OwnedInterruptSet S → OwnedInterruptSet State.dynamic
  unfolding convert
  from_static _ value = convert State.dynamic value

module _ {M : Type 0} (hw : Hardware M) {S : State} (may : MaybeEnabled S) where
  unfoldable pub interrupt_flags : OwnedInterruptSet S → Io M ℕ
  unfolding read_reg
  interrupt_flags self = do flags ← read_reg hw ir; return (bit_and flags self.interrupts)

  unfoldable pub clear_interrupts : OwnedInterruptSet S → ℕ → Io M (Unit {0})
  unfolding write_reg
  clear_interrupts self interrupts =
      let masked = bit_and interrupts self.interrupts in write_reg ir (λ _. masked)

  unfoldable pub iter_flagged : OwnedInterruptSet S → Io M Iter
  unfolding interrupt_flags clear_interrupts
  iter_flagged self = do
    interrupts ← interrupt_flags self
    clear_interrupts self interrupts
    return (iter interrupts)

  -- The set of those flagged, and `self` after the call.
  unfoldable pub split_flagged :
      OwnedInterruptSet S → Io M (OwnedInterruptSet S × OwnedInterruptSet S)
  unfolding interrupt_flags split_leniently
  split_flagged self = do flags ← interrupt_flags self; return (split_leniently self flags)
