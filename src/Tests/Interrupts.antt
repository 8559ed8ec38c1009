-- ===== src/Tests/Interrupts.antt =====
-- The theorems on interrupts at concrete inputs.
use mcan.Base.{
  ℕ, zero, suc, ◌<◌, ◌≡◌, refl, true, ◌&&◌, ◌||◌, not, arith, some, List, [], ◌∷◌, bit_or,
  if◌then◌else◌,
}
use mcan.Bits.{test_bit, test_bit-zero, bit_not}
use mcan.FlagIter.{Iter}
use mcan.Interrupt.Kinds.{Interrupt, collect, from_iter, rx_fifo0_full}
use mcan.Interrupt.Kinds.Laws.{all_fuel}
use mcan.Interrupt.Owned.{
  State, OwnedInterruptSet, MaybeEnabled, ok, mask_error, split, join, iter_flagged,
}
use mcan.Interrupt.Owned.Split.{has, split-ok_lem, split-mask_error_lem}
use mcan.Interrupt.Owned.Sharing.{Pool, owners, Step, Reach}
use mcan.Interrupt.Owned.Flags.{iter_flagged_lem}
use mcan.Interrupt.Configuration.{new, line1, enable}
use mcan.Interrupt.Configuration.Enabled.{is_enabled, on_line1, is_line_on, is_line1, enable_lem}
use mcan.Interrupt.Exclusive.{initial, Reach-owners, Reach-join}
use mcan.Interrupt.Registers.{IsFlagOf, number-IsFlagOf}
use mcan.Reg.Block.{ils, ir}
use mcan.Reg.Io.{Trace, Event, done, answer}
use mcan.Tests.Fixtures.{ram}

abbrev owned : OwnedInterruptSet State.disabled
owned = record { interrupts = 7 }

subset_owned : (j : ℕ) → j < 32 → test_bit 5 j ≡ true → has owned j ≡ true
subset_owned zero low h = refl
subset_owned (suc zero) low h = refl
subset_owned (suc (suc zero)) low h = refl
subset_owned (suc (suc (suc j))) low h = ground (arith, test_bit-zero j, h)

split-ok_lem_example :
    (out rest : OwnedInterruptSet State.disabled) × (split owned 5 ≡ (ok out, rest))
    × (has out 1 ≡ test_bit 5 1)
    × (has rest 1 ≡ (has owned 1 && not (test_bit 5 1)))
split-ok_lem_example = split-ok_lem owned 5 1 (omega arith) (omega arith) (omega arith) subset_owned

split-mask_error_lem_example :
    (missing : ℕ) × (split owned 12 ≡ (mask_error missing, owned))
    × (test_bit missing 2 ≡ (not (has owned 2) && test_bit 12 2))
split-mask_error_lem_example =
    split-mask_error_lem owned 12 3 2 (omega arith) (omega arith) (omega arith) refl refl

iter_flagged_lem_example :
    (it : Iter) × (xs : List Interrupt) × (w : ℕ) × (iter_flagged
        (ram tt)
        MaybeEnabled.enabled_line0
        (record { interrupts = 6 })
        (Event.write ir 5 ∷ [])
      ≡ (
        done it,
        Event.write ir w
            ∷ Event.read ir (answer (ram tt) (Event.write ir 5 ∷ []) ir)
            ∷ Event.write ir 5
            ∷ [],
      ))
    × (test_bit w 2 ≡ (
        test_bit (answer (ram tt) (Event.write ir 5 ∷ []) ir) 2
        && has {S = State.enabled_line0} (record { interrupts = 6 }) 2))
    × (collect all_fuel it ≡ some xs)
    × (from_iter xs ≡ w)
iter_flagged_lem_example =
    iter_flagged_lem (ram tt) MaybeEnabled.enabled_line0 (record { interrupts = 6 })
      (Event.write ir 5 ∷ []) 2 (omega arith)

abbrev start : Trace (Unit {0})
start = []

enable_lem_example :
    ((enable (ram tt) owned line1 start).0 ≡ done (record { interrupts = 7 }))
    × (is_enabled (ram tt) (enable (ram tt) owned line1 start).1 2
        ≡ (has owned 2 || is_enabled (ram tt) start 2))
    × (on_line1 (ram tt) (enable (ram tt) owned line1 start).1 2
        ≡ (if has owned 2 then is_line1 line1 else on_line1 (ram tt) start 2))
    × (is_line_on (ram tt) (enable (ram tt) owned line1 start).1 line1 ≡ true)
enable_lem_example =
    enable_lem (ram tt) (λ t. refl) (λ t. refl) (λ t. refl) owned line1 start 2 (omega arith)
      (omega arith)

-- The set of `new` after a split.
abbrev left : OwnedInterruptSet State.disabled
left = record { interrupts = 0x3fff_fffa }

abbrev halves : Pool
halves = (State.disabled, left) ∷ (State.disabled, record { interrupts = 5 }) ∷ []

split_once : Reach ((State.disabled, initial) ∷ []) halves
unfolding split bit_not
split_once = Reach.next Reach.here (
    Step.splits {self = initial} {out = record { interrupts = 5 }} {rest = left} 5 (omega arith)
      refl)

new_once : new start ≡ (done initial, Event.write ils 0 ∷ [])
unfolding new
new_once = refl

Reach-owners_example : owners 2 halves ≡ 1
Reach-owners_example = Reach-owners start 2 (omega arith) new_once split_once

Reach-join_example :
    join {M = Unit {0}} left (record { interrupts = 5 }) start
    ≡ (done (record { interrupts = bit_or 0x3fff_fffa 5 }), start)
Reach-join_example = Reach-join start split_once

number-IsFlagOf_example : IsFlagOf rx_fifo0_full
number-IsFlagOf_example = number-IsFlagOf rx_fifo0_full
