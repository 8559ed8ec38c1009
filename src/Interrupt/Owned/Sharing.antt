-- ===== src/Interrupt/Owned/Sharing.antt =====
-- The owned sets of a peripheral share out its interrupts: however they are split, joined and
-- passed around, each interrupt is in exactly one of them (mcan/src/interrupt.rs).
use mcan.Base.{
  ℕ, ◌+◌, ◌^◌, ◌<◌, ◌≡◌, refl, bit_and, bit_or, ltb, if◌then◌else◌, arith, List, [], ◌∷◌, ap, ◌∙◌,
}
use mcan.Bits.{
  test_bit, test_bit-bit_and, test_bit-bit_or, test_bit-zero, bits_ext, bit_and-lt, bit_or-lt,
}
use mcan.Reg.Io.{Trace, done}
use mcan.Interrupt.Owned.{
  State, OwnedInterruptSet, ok, mask_error, split_leniently, split, join, convert,
}
use mcan.Interrupt.Owned.Split.{has, Fits, split_leniently-has, split_leniently-Fits}

-- A set with its state, and the sets that exist at a time.
abbrev pub Holder : Type 0
Holder = (S : State) × OwnedInterruptSet S

abbrev pub Pool : Type 0
Pool = List Holder

-- How many sets of the pool have interrupt `i`.
abbrev pub owners : ℕ → Pool → ℕ
owners i [] = 0
owners i (h ∷ p) = (if has h.1 i then 1 else 0) + owners i p

abbrev pub AllFit : Pool → Type 0
AllFit [] = Unit {0}
AllFit (h ∷ p) = Fits h.1 × AllFit p

-- The second pool is the first with `h` put in somewhere.
pub data Moved (h : Holder) : Pool → Pool → Type 0 where
  here : {p : Pool} → Moved h p (h ∷ p)
  later : {k : Holder} {p q : Pool} → Moved h p q → Moved h (k ∷ p) (k ∷ q)

-- The operations on the first sets of the pool, and the passing of sets to other places.
pub data Step : Pool → Pool → Type 0 where
  splits :
      {S : State} {self out rest : OwnedInterruptSet S} {p : Pool} (subset : ℕ)
      → subset < 2 ^ 32
      → split self subset ≡ (ok out, rest)
      → Step ((S, self) ∷ p) ((S, rest) ∷ (S, out) ∷ p)
  split_fails :
      {S : State} {self rest : OwnedInterruptSet S} {p : Pool} (subset missing : ℕ)
      → split self subset ≡ (mask_error missing, rest)
      → Step ((S, self) ∷ p) ((S, rest) ∷ p)
  splits_flagged :
      {S : State} {self : OwnedInterruptSet S} {p : Pool} (flags : ℕ)
      → flags < 2 ^ 32
      → Step
          ((S, self) ∷ p)
          ((S, (split_leniently self flags).1) ∷ (S, (split_leniently self flags).0) ∷ p)
  joins :
      {S : State} {self other joined : OwnedInterruptSet S} {p : Pool} (t u : Trace (Unit {0}))
      → join self other t ≡ (done joined, u)
      → Step ((S, self) ∷ (S, other) ∷ p) ((S, joined) ∷ p)
  converts :
      {S : State} {self : OwnedInterruptSet S} {p : Pool} (T : State)
      → Step ((S, self) ∷ p) ((T, convert T self) ∷ p)
  moves : {p q : Pool} (h : Holder) → Moved h p q → Step (h ∷ p) q

pub data Reach (p : Pool) : Pool → Type 0 where
  here : Reach p p
  next : {q r : Pool} → Reach p q → Step q r → Reach p r

-- Interrupts 0 to 29 are in one set each, the reserved bits in none.
pub record IsShared (p : Pool) : Type 0 where
  pub fits : AllFit p
  pub once : (i : ℕ) → i < 32 → owners i p ≡ (if ltb i 30 then 1 else 0)

Moved-owners : (i : ℕ) {h : Holder} {p q : Pool} → Moved h p q → owners i q ≡ owners i (h ∷ p)
Moved-owners i here = refl
Moved-owners i (later m) = omega (arith, Moved-owners i m)

Moved-AllFit : {h : Holder} {p q : Pool} → Moved h p q → Fits h.1 → AllFit p → AllFit q
Moved-AllFit here f a = (f, a)
Moved-AllFit (later m) f a = (a.0, Moved-AllFit m f a.1)

-- `split` and `join`, where they succeed, as equations.
split-eq-ok :
    {S : State} (self : OwnedInterruptSet S) (subset : ℕ) {out rest : OwnedInterruptSet S}
    → split self subset ≡ (ok out, rest)
    → (out ≡ (split_leniently self subset).0) × (rest ≡ (split_leniently self subset).1)
unfolding split
split-eq-ok self subset e = ground arith

split-eq-mask_error :
    {S : State} (self : OwnedInterruptSet S) (subset missing : ℕ) {rest : OwnedInterruptSet S}
    → split self subset ≡ (mask_error missing, rest)
    → rest ≡ self
unfolding split
split-eq-mask_error self subset missing e = ground arith

join-eq-done :
    {S : State} (self other : OwnedInterruptSet S) {joined : OwnedInterruptSet S}
    (t u : Trace (Unit {0}))
    → join self other t ≡ (done joined, u)
    → (joined.interrupts ≡ bit_or self.interrupts other.interrupts)
      × (bit_and self.interrupts other.interrupts ≡ 0)
unfolding join
join-eq-done self other t u e = ground arith

split_leniently-owners :
    {S : State} (self : OwnedInterruptSet S) (subset i : ℕ)
    → i < 32
    → subset < 2 ^ 32
    → (p : Pool)
    → owners i ((S, (split_leniently self subset).1) ∷ (S, (split_leniently self subset).0) ∷ p)
      ≡ owners i ((S, self) ∷ p)
split_leniently-owners self subset i low fits p =
    ground (arith, split_leniently-has self subset i low fits)

join-owners :
    {S : State} (self other joined : OwnedInterruptSet S) (i : ℕ)
    → joined.interrupts ≡ bit_or self.interrupts other.interrupts
    → bit_and self.interrupts other.interrupts ≡ 0
    → (p : Pool) → owners i ((S, joined) ∷ p) ≡ owners i ((S, self) ∷ (S, other) ∷ p)
join-owners self other joined i e apart p = ground (
  arith,
  ap (λ (x : ℕ). test_bit x i) e,
  ap (λ (x : ℕ). test_bit x i) apart,
  test_bit-zero i,
  test_bit-bit_and i self.interrupts other.interrupts,
  test_bit-bit_or i self.interrupts other.interrupts,
)

Split-IsShared :
    {S : State} (self : OwnedInterruptSet S) (subset : ℕ) (p : Pool)
    → subset < 2 ^ 32
    → IsShared ((S, self) ∷ p)
    → IsShared ((S, (split_leniently self subset).1) ∷ (S, (split_leniently self subset).0) ∷ p)
Split-IsShared self subset p fits v = record {
  fits = (
    (split_leniently-Fits self subset v.fits.0).1,
    ((split_leniently-Fits self subset v.fits.0).0, v.fits.1),
  );
  once = λ i low. split_leniently-owners self subset i low fits p ∙ v.once i low;
}

Step-IsShared : {p q : Pool} → Step p q → IsShared p → IsShared q
Step-IsShared (splits {self = self} {p = p} subset fits e) v =
    let (e0, e1) = split-eq-ok self subset e in rw (e0, e1) (Split-IsShared self subset p fits v)
Step-IsShared (split_fails {self = self} subset missing e) v =
    rw (split-eq-mask_error self subset missing e) v
Step-IsShared (splits_flagged {self = self} {p = p} flags fits) v =
    Split-IsShared self flags p fits v
Step-IsShared (joins {self = self} {other = other} {joined = joined} {p = p} t u e) v =
    let (e0, e1) = join-eq-done self other t u e in
    record {
      fits =
          (rw e0 (bit_or-lt 32 self.interrupts other.interrupts v.fits.0 v.fits.1.0), v.fits.1.1);
      once = λ i low. join-owners self other joined i e0 e1 p ∙ v.once i low;
    }
Step-IsShared (converts {S = S} {self = self} T) v =
    unfold convert in record { fits = v.fits; once = λ i low. v.once i low }
Step-IsShared (moves h m) v = record {
  fits = Moved-AllFit m v.fits.0 v.fits.1;
  once = λ i low. Moved-owners i m ∙ v.once i low;
}

pub Reach-IsShared : {p q : Pool} → Reach p q → IsShared p → IsShared q
Reach-IsShared here v = v
Reach-IsShared (next r s) v = Step-IsShared s (Reach-IsShared r v)

-- Two sets of a pool have no interrupt in common.
pub disjoint_of_IsShared :
    {S T : State} (self : OwnedInterruptSet S) (other : OwnedInterruptSet T) (p : Pool)
    → IsShared ((S, self) ∷ (T, other) ∷ p)
    → bit_and self.interrupts other.interrupts ≡ 0
disjoint_of_IsShared self other p v =
    bits_ext 32 _ _ (bit_and-lt 32 _ _ v.fits.0) (omega arith) λ i low.
      ground
        (arith, v.once i low, test_bit-bit_and i self.interrupts other.interrupts, test_bit-zero i)
