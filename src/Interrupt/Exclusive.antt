-- ===== src/Interrupt/Exclusive.antt =====
-- The guarantee that the owned sets give from `InterruptConfiguration::new` on
-- (mcan/src/interrupt.rs).
use mcan.Base.{ℕ, ◌<◌, ◌≡◌, [], ◌∷◌, if◌then◌else◌, ltb, arith, bit_or}
use mcan.Bits.{test_bit-ones}
use mcan.Reg.Io.{Trace, done}
use mcan.Interrupt.Owned.{State, OwnedInterruptSet, join}
use mcan.Interrupt.Owned.Sharing.{
  Pool, owners, Reach, IsShared, Reach-IsShared, disjoint_of_IsShared,
}
use mcan.Interrupt.Configuration.{new, reserved_bits}

-- The set that `new` makes.
abbrev pub initial : OwnedInterruptSet State.disabled
initial = record { interrupts = reserved_bits }

initial-IsShared : IsShared ((State.disabled, initial) ∷ [])
initial-IsShared = record {
  fits = (omega arith, tt);
  once = λ i low. ground (arith, test_bit-ones 30 i);
}

new-eq-done :
    {M : Type 0} (t : Trace M) {self : OwnedInterruptSet State.disabled} {u : Trace M}
    → new t ≡ (done self, u)
    → self ≡ initial
unfolding new
new-eq-done t made = ground arith

-- However the set that `new` makes is split, joined, converted and passed around, each of the
-- interrupts 0 to 29 is in exactly one of the sets, and a reserved bit in none.
pub Reach-owners :
    {M : Type 0} (t : Trace M) {self : OwnedInterruptSet State.disabled} {u : Trace M} {p : Pool}
    (i : ℕ)
    → i < 32
    → new t ≡ (done self, u)
    → Reach ((State.disabled, self) ∷ []) p
    → owners i p ≡ (if ltb i 30 then 1 else 0)
Reach-owners t i low made r =
    (Reach-IsShared r (rw (new-eq-done t made) initial-IsShared)).once i low

-- `join` of two sets that came about from the set that `new` makes, by splitting, joining, converting and
-- passing around, never fails its debug assertion: it returns the union and accesses nothing.
pub Reach-join :
    {M : Type 0} (t : Trace M) {S : State} {self other : OwnedInterruptSet S} {p : Pool}
    → Reach ((State.disabled, initial) ∷ []) ((S, self) ∷ (S, other) ∷ p)
    → join self other t
      ≡ (done (record { interrupts = bit_or self.interrupts other.interrupts }), t)
unfolding join
Reach-join t {self} {other} {p} r =
    rw (disjoint_of_IsShared self other p (Reach-IsShared r initial-IsShared))
