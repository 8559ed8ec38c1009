-- ===== src/Interrupt/Owned/Flags.antt =====
-- Reading and clearing of the flags in IR through an owned set (mcan/src/interrupt.rs).
use mcan.Base.{ℕ, ◌<◌, ◌^◌, ◌≡◌, ◌&&◌, some, List, ◌∷◌, bit_and, arith, ◌∙◌}
use mcan.Bits.{
  test_bit, test_bit-bit_and, test_bit-ones, test_bit-high, bits_ext, bit_and-lt, bit_and-lt_right,
  bit_and-bit_and_self,
}
use mcan.FlagIter.{Iter, iter}
use mcan.Reg.Block.{ir}
use mcan.Reg.Io.{Hardware, Trace, Event, answer, done}
use mcan.Interrupt.Kinds.{Interrupt, collect, from_iter}
use mcan.Interrupt.Kinds.Laws.{all_fuel, from_iter-iter}
use mcan.Interrupt.Owned.{State, MaybeEnabled, OwnedInterruptSet, iter_flagged}
use mcan.Interrupt.Owned.Split.{has}

-- Without reserved bits the mask of the interrupts changes nothing.
mask_interrupts : (w : ℕ) → w < 2 ^ 30 → bit_and w 0x3fff_ffff ≡ w
mask_interrupts w small = bits_ext 32 _ _ (bit_and-lt 32 w _ (omega arith)) (omega arith) λ i low.
    ground (arith, test_bit-bit_and i w 0x3fff_ffff, test_bit-ones 30 i, test_bit-high i 30 w small)

module _ {M : Type 0} (hw : Hardware M) {S : State} (may : MaybeEnabled S) where
  -- `iter_flagged` reads IR once and writes it once. The word written has exactly the interrupts
  -- that are flagged and owned, so no other party's flag is cleared, and a loop over the iterator
  -- ends and yields exactly the interrupts of that word.
  pub iter_flagged_lem :
      (self : OwnedInterruptSet S) (t : Trace M) (i : ℕ)
      → self.interrupts < 2 ^ 30
      → (it : Iter) × (xs : List Interrupt) × (w : ℕ) × (iter_flagged hw may self t
          ≡ (done it, Event.write ir w ∷ Event.read ir (answer hw t ir) ∷ t))
        × (test_bit w i ≡ (test_bit (answer hw t ir) i && has self i))
        × (collect all_fuel it ≡ some xs)
        × (from_iter xs ≡ w)
  unfolding iter_flagged
  iter_flagged_lem self t i owned =
      let w : ℕ = bit_and (answer hw t ir) self.interrupts in
      let small : w < 2 ^ 30 = bit_and-lt_right 30 _ _ owned in
      let e : bit_and w self.interrupts ≡ w =
        bit_and-bit_and_self 30 (answer hw t ir) self.interrupts owned in
      let (xs, ends, back) = from_iter-iter w (omega arith) in
      (
        iter w,
        xs,
        w,
        rw e,
        test_bit-bit_and i (answer hw t ir) self.interrupts,
        ends,
        back ∙ mask_interrupts w small,
      )
