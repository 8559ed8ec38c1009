-- ===== src/Interrupt/Configuration/Enabled.antt =====
-- Which interrupts are enabled, on which line, before and after the operations of
-- `InterruptConfiguration` (mcan/src/interrupt.rs).
use mcan.Base.{
  ℕ, ◌<◌, ◌^◌, ◌≡◌, refl, Bool, true, false, ◌&&◌, ◌||◌, not, if◌then◌else◌, arith, bit_and, bit_or,
}
use mcan.Bits.{
  u32, test_bit, test_bit-bit_and, test_bit-bit_or, test_bit-bit_not, bit_not, test_bit-u32,
}
use mcan.Reg.Block.{ie, ils, ile, Register-discrete}
use mcan.Reg.Io.{Hardware, answer, Trace, done}
use mcan.Reg.Stored.{stored, Holds}
use mcan.Interrupt.Owned.{State, OwnedInterruptSet}
use mcan.Interrupt.Owned.Split.{has, Fits}
use mcan.Interrupt.Configuration.{
  InterruptLine, line0, line1, line_bits, enabled_bits, line_enable_bits, raw_enable, enable,
  disable,
}

abbrev pub is_line1 : InterruptLine → Bool
is_line1 line0 = false
is_line1 line1 = true

line_bits-test :
    (line : InterruptLine) (mask bits i : ℕ)
    → i < 32
    → mask < 2 ^ 32
    → test_bit (line_bits line mask bits) i
      ≡ (if test_bit mask i then is_line1 line else test_bit bits i)
unfolding line_bits
line_bits-test line0 mask bits i low fits =
    ground (arith, test_bit-bit_and i bits (bit_not 32 mask), test_bit-bit_not i 32 mask fits low)
line_bits-test line1 mask bits i low fits = ground (arith, test_bit-bit_or i bits mask)

enabled_bits-test :
    (enabled : Bool) (mask bits i : ℕ)
    → i < 32
    → mask < 2 ^ 32
    → test_bit (enabled_bits enabled mask bits) i
      ≡ (if test_bit mask i then enabled else test_bit bits i)
unfolding enabled_bits
enabled_bits-test true mask bits i low fits = ground (arith, test_bit-bit_or i bits mask)
enabled_bits-test false mask bits i low fits =
    ground (arith, test_bit-bit_and i bits (bit_not 32 mask), test_bit-bit_not i 32 mask fits low)

abbrev pub line_bit : InterruptLine → ℕ
line_bit line0 = 0
line_bit line1 = 1

line_bit-lt : (line : InterruptLine) → line_bit line < 32
line_bit-lt line0 = omega arith
line_bit-lt line1 = omega arith

or_comm : (a b : Bool) → (a || b) ≡ (b || a)
or_comm a b = ground arith

line_enable_bits-test :
    (line : InterruptLine) (bits : ℕ) → test_bit (line_enable_bits line bits) (line_bit line) ≡ true
unfolding line_enable_bits
line_enable_bits-test line0 bits = ground (arith, test_bit-bit_or 0 bits 1)
line_enable_bits-test line1 bits = ground (arith, test_bit-bit_or 1 bits 2)

module _ {M : Type 0} (hw : Hardware M) where
  -- Interrupt `i` is enabled, it is on line 1, and the line is on, by what IE, ILS and ILE read.
  abbrev pub is_enabled : Trace M → ℕ → Bool
  is_enabled t i = test_bit (answer hw t ie) i

  abbrev pub on_line1 : Trace M → ℕ → Bool
  on_line1 t i = test_bit (answer hw t ils) i

  abbrev pub is_line_on : Trace M → InterruptLine → Bool
  is_line_on t line = test_bit (answer hw t ile) (line_bit line)

module _ {M : Type 0} (hw : Hardware M) {ie0 ils0 ile0 : ℕ} (ie_holds : Holds hw ie ie0)
    (ils_holds : Holds hw ils ils0) (ile_holds : Holds hw ile ile0) where
  raw_enable_lem :
      {S : State} (self : OwnedInterruptSet S) (T : State) (line : InterruptLine) (t : Trace M)
      (i : ℕ)
      → i < 32
      → Fits self
      → ((raw_enable hw self T line t).0 ≡ done (record { interrupts = self.interrupts }))
        × (is_enabled hw (raw_enable hw self T line t).1 i ≡ (has self i || is_enabled hw t i))
        × (on_line1 hw (raw_enable hw self T line t).1 i
            ≡ (if has self i then is_line1 line else on_line1 hw t i))
        × (is_line_on hw (raw_enable hw self T line t).1 line ≡ true)
  unfolding raw_enable Register-discrete
  raw_enable_lem self T line t i low fits = (
    refl,
    simp (ie_holds, ils_holds, ile_holds)
        (rw
          (
            test_bit-u32 i (bit_or (u32 (stored ie ie0 t)) self.interrupts) low,
            test_bit-bit_or i (u32 (stored ie ie0 t)) self.interrupts,
          )
          (or_comm (test_bit (u32 (stored ie ie0 t)) i) (has self i))),
    simp (ie_holds, ils_holds, ile_holds)
        (rw (
          test_bit-u32 i (line_bits line self.interrupts (u32 (stored ils ils0 t))) low,
          line_bits-test line self.interrupts (u32 (stored ils ils0 t)) i low fits,
        )),
    simp (ie_holds, ils_holds, ile_holds)
        (rw (
          test_bit-u32 (line_bit line) (line_enable_bits line (u32 (stored ile ile0 t)))
              (line_bit-lt line),
          line_enable_bits-test line (u32 (stored ile ile0 t)),
        )),
  )

  -- `enable` returns the same interrupts. After it these are enabled on the line, which is on, and
  -- every other interrupt is enabled, or not, on the line where it was, if IE, ILS and ILE read back
  -- what was written to them.
  pub enable_lem :
      {S : State} (self : OwnedInterruptSet S) (line : InterruptLine) (t : Trace M) (i : ℕ)
      → i < 32
      → Fits self
      → ((enable hw self line t).0 ≡ done (record { interrupts = self.interrupts }))
        × (is_enabled hw (enable hw self line t).1 i ≡ (has self i || is_enabled hw t i))
        × (on_line1 hw (enable hw self line t).1 i
            ≡ (if has self i then is_line1 line else on_line1 hw t i))
        × (is_line_on hw (enable hw self line t).1 line ≡ true)
  unfolding enable
  enable_lem self line0 t i low fits =
      let r = raw_enable_lem self State.enabled_line0 line0 t i low fits in (refl, r.1, r.2, r.3)
  enable_lem self line1 t i low fits =
      let r = raw_enable_lem self State.enabled_line1 line1 t i low fits in (refl, r.1, r.2, r.3)

  -- `disable` returns the same interrupts. After it these are disabled, and every other interrupt is
  -- enabled exactly if it was; the lines are as they were.
  pub disable_lem :
      {S : State} (self : OwnedInterruptSet S) (t : Trace M) (i : ℕ)
      → i < 32
      → Fits self
      → ((disable hw self t).0 ≡ done (record { interrupts = self.interrupts }))
        × (is_enabled hw (disable hw self t).1 i ≡ (not (has self i) && is_enabled hw t i))
        × (on_line1 hw (disable hw self t).1 i ≡ on_line1 hw t i)
  unfolding disable Register-discrete
  disable_lem self t i low fits = (
    refl,
    simp ie_holds (
        rw
          (
            test_bit-u32 i (bit_and (u32 (stored ie ie0 t)) (bit_not 32 self.interrupts)) low,
            test_bit-bit_and i (u32 (stored ie ie0 t)) (bit_not 32 self.interrupts),
            test_bit-bit_not i 32 self.interrupts fits low,
          )
          (ground arith)),
    simp (ie_holds, ils_holds),
  )
