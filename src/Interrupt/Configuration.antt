-- ===== src/Interrupt/Configuration.antt =====
-- `InterruptConfiguration` (mcan/src/interrupt.rs).
pub mod Enabled
use mcan.Base.{ℕ, Bool, true, false, bit_and, bit_or, if◌then◌else◌}
use mcan.Bits.{bit_not}
use mcan.Reg.Block.{Register, ie, ils, ile}
use mcan.Reg.Field.{set_bit}
use mcan.Reg.Io.{Hardware, Io, ◌>>=◌, ◌>>◌, return, write_reg, modify_reg}
use mcan.Interrupt.Owned.{State, OwnedInterruptSet, convert, from_static, Static}

pub data InterruptLine : Type 0 where
  line0 line1 : InterruptLine

abbrev pub reserved_bits : ℕ
reserved_bits = 0x3fff_ffff

-- `InterruptConfiguration::new`: the owned set of all the interrupts.
unfoldable pub new : {M : Type 0} → Io M (OwnedInterruptSet State.disabled)
unfolding write_reg
new = do write_reg ils (λ w. w); return (record { interrupts = reserved_bits })

-- The word that `set_line` writes to ILS, and the one that `set_enabled` writes to IE.
unfoldable pub line_bits : InterruptLine → ℕ → ℕ → ℕ
line_bits line0 mask bits = bit_and bits (bit_not 32 mask)
line_bits line1 mask bits = bit_or bits mask

unfoldable pub enabled_bits : Bool → ℕ → ℕ → ℕ
enabled_bits enabled mask bits =
    if enabled then bit_or bits mask else bit_and bits (bit_not 32 mask)

-- EINT0 is bit 0 of ILE and EINT1 bit 1.
unfoldable pub line_enable_bits : InterruptLine → ℕ → ℕ
unfolding set_bit
line_enable_bits line0 bits = set_bit 0 bits
line_enable_bits line1 bits = set_bit 1 bits

module _ {M : Type 0} (hw : Hardware M) where
  unfoldable pub enable_line : InterruptLine → Io M (Unit {0})
  unfolding line_enable_bits modify_reg
  enable_line line = modify_reg hw ile (line_enable_bits line)

  unfoldable pub set_line : OwnedInterruptSet State.dynamic → InterruptLine → Io M (Unit {0})
  unfolding enable_line line_bits modify_reg
  set_line interrupts line = do
    enable_line line
    modify_reg hw ils (line_bits line interrupts.interrupts)

  unfoldable pub set_enabled : OwnedInterruptSet State.dynamic → Bool → Io M (Unit {0})
  unfolding enabled_bits modify_reg
  set_enabled interrupts enabled = modify_reg hw ie (enabled_bits enabled interrupts.interrupts)

  -- `raw_enable`; the state of the result is the caller's to name.
  unfoldable pub raw_enable :
      {S : State} → OwnedInterruptSet S → (T : State) → InterruptLine → Io M (OwnedInterruptSet T)
  unfolding set_line set_enabled convert
  raw_enable interrupt T line =
      let interrupt' = convert State.dynamic interrupt in
      set_line interrupt' line >> (set_enabled interrupt' true >> return (convert T interrupt'))

  unfoldable pub enable_line_0 :
      {S : State} → OwnedInterruptSet S → Io M (OwnedInterruptSet State.enabled_line0)
  unfolding raw_enable
  enable_line_0 interrupt = raw_enable interrupt State.enabled_line0 line0

  unfoldable pub enable_line_1 :
      {S : State} → OwnedInterruptSet S → Io M (OwnedInterruptSet State.enabled_line1)
  unfolding raw_enable
  enable_line_1 interrupt = raw_enable interrupt State.enabled_line1 line1

  unfoldable pub enable :
      {S : State} → OwnedInterruptSet S → InterruptLine → Io M (OwnedInterruptSet State.dynamic)
  unfolding enable_line_0 enable_line_1 from_static
  enable interrupt line0 = do
    set ← enable_line_0 interrupt
    return (from_static Static.enabled_line0 set)
  enable interrupt line1 = do
    set ← enable_line_1 interrupt
    return (from_static Static.enabled_line1 set)

  unfoldable pub disable :
      {S : State} → OwnedInterruptSet S → Io M (OwnedInterruptSet State.disabled)
  unfolding set_enabled convert
  disable interrupt =
      let interrupt' = convert State.dynamic interrupt in
      set_enabled interrupt' false >> return (convert State.disabled interrupt')
