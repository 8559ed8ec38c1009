-- ===== src/FlagIter/Union.antt =====
-- Collecting the items of a set back into a set.
use mcan.Base.{
  ℕ, suc, ◌+◌, ◌-◌, ◌^◌, ◌≤◌, ◌<◌, ◌≡◌, ◌&&◌, ◌||◌, List, [], ◌∷◌, length, bit_or, bit_and, arith,
  ltb, leb, ◌==◌, Bool-cases, inl, inr,
}
use mcan.Bits.{
  has_flag, has_flag_lem, test_bit, test_bit-bit_or, test_bit-bit_and, test_bit-pow, one-shl, ◌<<<◌,
  bits_ext, bit_or-lt, bit_and-lt, test_bit-zero, test_bit-ones,
}
use mcan.FlagIter.Defs.{collect_into}
use mcan.FlagIter.Laws.{flagged}

-- The items of the list, from index `i` on, stand for the single bits `1 << i`, `1 << (i + 1)`, ….
abbrev pub Values : {A : Type 0} → (A → ℕ) → ℕ → List A → Type 0
Values value i [] = Unit {0}
Values value i (x ∷ xs) = (value x ≡ (1 <<< i)) × Values value (suc i) xs

module _ {A : Type 0} (value : A → ℕ) (flags : ℕ) where
  test_bit-one : (i j : ℕ) → i < 32 → test_bit (1 <<< i) j ≡ (i == j)
  test_bit-one i j h = rw (one-shl i h) (test_bit-pow i j)

  test_bit-collect_into :
      (set i j : ℕ) (xs : List A)
      → i + length xs ≤ 32
      → j < 32
      → Values value i xs
      → test_bit (collect_into value set (flagged flags i xs)) j
        ≡ (test_bit set j || (leb i j && (ltb j (i + length xs) && test_bit flags j)))
  unfolding collect_into
  test_bit-collect_into set i j [] small low v = ground arith
  test_bit-collect_into set i j (x ∷ xs) small low v = elim (Bool-cases (has_flag flags i)) [
    | inl e ↦ ground (
      arith,
      e,
      v.0,
      has_flag_lem flags i (omega arith),
      test_bit-collect_into (bit_or set (value x)) (suc i) j xs (omega arith) low v.1,
      test_bit-bit_or j set (value x),
      test_bit-one i j (omega arith),
    )
    | inr e ↦ ground (
      arith,
      e,
      has_flag_lem flags i (omega arith),
      test_bit-collect_into set (suc i) j xs (omega arith) low v.1,
    )
  ]

  collect_into-lt :
      (set i : ℕ) (xs : List A)
      → i + length xs ≤ 32
      → set < 2 ^ 32
      → Values value i xs
      → collect_into value set (flagged flags i xs) < 2 ^ 32
  unfolding collect_into
  collect_into-lt set i [] small fits v = fits
  collect_into-lt set i (x ∷ xs) small fits v = elim (Bool-cases (has_flag flags i)) [
    | inl e ↦ rw e (
        collect_into-lt (bit_or set (value x)) (suc i) xs (omega arith)
          (bit_or-lt 32 set (value x) fits (rw v.0 (omega arith))) v.1)
    | inr e ↦ rw e (collect_into-lt set (suc i) xs (omega arith) fits v.1)
  ]

  -- Collecting the items of a set gives its members among the first `length xs` bits.
  pub collect_into-flagged :
      (xs : List A)
      → length xs ≤ 32
      → flags < 2 ^ 32
      → Values value 0 xs
      → collect_into value 0 (flagged flags 0 xs) ≡ bit_and flags (2 ^ length xs - 1)
  collect_into-flagged xs small fits v =
      bits_ext 32 _ _ (collect_into-lt 0 0 xs (omega arith) (omega arith) v)
        (bit_and-lt 32 flags _ fits)
        λ j low. ground (
          arith,
          test_bit-collect_into 0 0 j xs (omega arith) low v,
          test_bit-bit_and j flags (2 ^ length xs - 1),
          test_bit-ones (length xs) j,
          test_bit-zero j,
        )
