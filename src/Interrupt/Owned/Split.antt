-- ===== src/Interrupt/Owned/Split.antt =====
-- What `split` and `join` do to each interrupt (mcan/src/interrupt.rs).
use mcan.Base.{
  ℕ, ◌^◌, ◌<◌, ◌≡◌, Bool, true, false, ◌&&◌, not, bit_and, arith, ◌==◌, Bool-cases, inl, inr,
  ==_iff, ap,
}
use mcan.Bits.{
  bit_not, test_bit, test_bit-bit_and, test_bit-bit_not, test_bit-zero, bits_ext, bit_and-lt,
  bit_not-lt,
}
use mcan.Interrupt.Owned.{State, OwnedInterruptSet, ok, mask_error, split_leniently, split}

-- Interrupt `i` is in the set.
abbrev pub has : {S : State} → OwnedInterruptSet S → ℕ → Bool
has s i = test_bit s.interrupts i

-- The set is a `u32`.
abbrev pub Fits : {S : State} → OwnedInterruptSet S → Type 0
Fits s = s.interrupts < 2 ^ 32

module _ {S : State} (self : OwnedInterruptSet S) (subset : ℕ) where
  pub split_leniently-has :
      (i : ℕ)
      → i < 32
      → subset < 2 ^ 32
      → (has (split_leniently self subset).0 i ≡ (has self i && test_bit subset i))
        × (has (split_leniently self subset).1 i ≡ (has self i && not (test_bit subset i)))
  unfolding split_leniently
  split_leniently-has i low fits = (
    test_bit-bit_and i self.interrupts subset,
    ground (
      arith,
      test_bit-bit_and i self.interrupts (bit_not 32 subset),
      test_bit-bit_not i 32 subset fits low,
    ),
  )

  pub split_leniently-Fits :
      Fits self → Fits (split_leniently self subset).0 × Fits (split_leniently self subset).1
  unfolding split_leniently
  split_leniently-Fits fits = (bit_and-lt 32 _ _ fits, bit_and-lt 32 _ _ fits)

  -- The interrupts that `split` misses.
  missing_lem :
      (i : ℕ)
      → i < 32
      → Fits self
      → test_bit (bit_and (bit_not 32 self.interrupts) subset) i
        ≡ (not (has self i) && test_bit subset i)
  missing_lem i low fits = ground (
    arith,
    test_bit-bit_and i (bit_not 32 self.interrupts) subset,
    test_bit-bit_not i 32 self.interrupts fits low,
  )

  -- Where `self` has every interrupt of `subset`, `split` moves exactly those to the result.
  pub split-ok :
      Fits self
      → subset < 2 ^ 32
      → ((i : ℕ) → i < 32 → test_bit subset i ≡ true → has self i ≡ true)
      → split self subset ≡ (ok (split_leniently self subset).0, (split_leniently self subset).1)
  unfolding split
  split-ok fits subset_fits owned =
      let none_missing : bit_and (bit_not 32 self.interrupts) subset ≡ 0 =
        bits_ext 32 _ _ (bit_and-lt 32 _ _ (bit_not-lt 32 self.interrupts)) (omega arith)
          λ i low. ground (arith, missing_lem i low fits, owned i low, test_bit-zero i) in
      rw none_missing

  -- Where it lacks one, `split` changes nothing and reports exactly the missing ones.
  pub split-mask_error :
      (i : ℕ)
      → i < 32
      → Fits self
      → test_bit subset i ≡ true
      → has self i ≡ false
      → split self subset ≡ (mask_error (bit_and (bit_not 32 self.interrupts) subset), self)
  unfolding split
  split-mask_error i low fits wanted lacking =
      elim (Bool-cases (bit_and (bit_not 32 self.interrupts) subset == 0)) [
        | inl e ↦ ground (
          arith,
          missing_lem i low fits,
          ap (λ (x : ℕ). test_bit x i)
              ((==_iff (bit_and (bit_not 32 self.interrupts) subset) 0).0 e),
          test_bit-zero i,
        )
        | inr e ↦ rw e
      ]

  -- Where `self` has every interrupt of `subset`, `split` succeeds, the result has exactly those of
  -- `subset`, and `self` keeps exactly the others.
  pub split-ok_lem :
      (i : ℕ)
      → i < 32
      → Fits self
      → subset < 2 ^ 32
      → ((j : ℕ) → j < 32 → test_bit subset j ≡ true → has self j ≡ true)
      → (out rest : OwnedInterruptSet S) × (split self subset ≡ (ok out, rest))
        × (has out i ≡ test_bit subset i)
        × (has rest i ≡ (has self i && not (test_bit subset i)))
  split-ok_lem i low fits subset_fits owned = (
    (split_leniently self subset).0,
    (split_leniently self subset).1,
    split-ok fits subset_fits owned,
    ground (arith, (split_leniently-has i low subset_fits).0, owned i low),
    (split_leniently-has i low subset_fits).1,
  )

  -- Where `self` lacks an interrupt `i` of `subset`, `split` leaves `self` as it is, and the error
  -- has an interrupt `j` exactly if `j` is in `subset` and not in `self`.
  pub split-mask_error_lem :
      (i j : ℕ)
      → i < 32
      → j < 32
      → Fits self
      → test_bit subset i ≡ true
      → has self i ≡ false
      → (missing : ℕ) × (split self subset ≡ (mask_error missing, self))
        × (test_bit missing j ≡ (not (has self j) && test_bit subset j))
  split-mask_error_lem i j low low' fits wanted lacking = (
    bit_and (bit_not 32 self.interrupts) subset,
    split-mask_error i low fits wanted lacking,
    missing_lem j low' fits,
  )
