-- ===== src/FlagIter/Laws.antt =====
-- The iterator ends, and yields the items whose flags are set, in ascending order.
use mcan.Base.{
  ℕ, zero, suc, ◌+◌, ◌≤◌, ◌<◌, ◌≡◌, Option, none, some, List, [], ◌∷◌, length, if◌then◌else◌, arith,
  Bool-cases, inl, inr, min,
}
use mcan.Bits.{has_flag}
use mcan.FlagIter.Defs.{Iter, iter, next, next_fuel, collect}

-- The items that are flagged, of a list whose first item stands at index `i`.
abbrev pub flagged : {A : Type 0} → ℕ → ℕ → List A → List A
flagged flags i [] = []
flagged flags i (x ∷ xs) =
    if has_flag flags i then x ∷ flagged flags (suc i) xs else flagged flags (suc i) xs

-- `decode` gives the items of the list from index `i` on, and then `none`.
abbrev pub Decodes : {A : Type 0} → (ℕ → Option A) → ℕ → List A → Type 0
Decodes decode i [] = decode i ≡ none
Decodes decode i (x ∷ xs) = (decode i ≡ some x) × Decodes decode (suc i) xs

module _ {A : Type 0} (decode : ℕ → Option A) (flags : ℕ) where
  -- What `next` finds among the items from index `i` on.
  abbrev first : ℕ → List A → Option A × Iter
  first i [] = (none, record { flags = flags; index = suc i })
  first i (x ∷ xs) =
      if has_flag flags i
      then (some x, record { flags = flags; index = suc i })
      else first (suc i) xs

  saturates_above : (i : ℕ) → i ≤ 32 → min (i + 1) 255 ≡ suc i
  saturates_above i h = omega arith

  next_lem :
      (fuel i : ℕ) (xs : List A)
      → i + length xs ≤ 32
      → length xs < fuel
      → Decodes decode i xs
      → next decode fuel (record { flags = flags; index = i }) ≡ some (first i xs)
  unfolding next
  next_lem zero i xs small enough d = absurd (omega arith)
  next_lem (suc fuel) i [] small enough d = ground (arith, d)
  next_lem (suc fuel) i (x ∷ xs) small enough d = ground (
    arith,
    d.0,
    saturates_above i (omega arith),
    next_lem fuel (suc i) xs (omega arith) (omega arith) d.1,
  )

  -- Enough fuel for the loop is one more than the items that are left.
  collect_from :
      (fuel i : ℕ) (xs : List A)
      → i + length xs ≤ 32
      → length xs < fuel
      → Decodes decode i xs
      → collect decode fuel (record { flags = flags; index = i }) ≡ some (flagged flags i xs)
  unfolding collect
  collect_from zero i xs small enough d = absurd (omega arith)
  collect_from (suc fuel) i [] small enough d =
      ground (arith, next_lem next_fuel i [] small (omega arith) d)
  collect_from (suc fuel) i (x ∷ xs) small enough d = elim (Bool-cases (has_flag flags i)) [
    | inl set ↦ ground (
      arith,
      next_lem next_fuel i (x ∷ xs) small (omega arith) d,
      collect_from fuel (suc i) xs (omega arith) (omega arith) d.1,
    )
    | inr clear ↦ ground (
      arith,
      next_lem next_fuel i (x ∷ xs) small (omega arith) d,
      next_lem next_fuel (suc i) xs (omega arith) (omega arith) d.1,
      collect_from (suc fuel) (suc i) xs (omega arith) (omega arith) d.1,
    )
  ]

  -- The loop over `set.iter()`.
  pub collect-iter :
      (fuel : ℕ) (xs : List A)
      → length xs ≤ 32
      → length xs < fuel
      → Decodes decode 0 xs
      → collect decode fuel (iter flags) ≡ some (flagged flags 0 xs)
  collect-iter fuel xs small enough d = collect_from fuel 0 xs (omega arith) enough d
