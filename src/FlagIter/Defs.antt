-- ===== src/FlagIter/Defs.antt =====
-- `Iter`, `Iterator::next` and the `for` loop over it.
use mcan.Base.{ℕ, zero, suc, ◌+◌, min, bit_or, Option, none, some, List, [], ◌∷◌, if◌then◌else◌}
use mcan.Bits.{has_flag}

pub record Iter : Type 0 where
  pub flags : ℕ
  pub index : ℕ

-- `set.iter()`
abbrev pub iter : ℕ → Iter
iter flags = record { flags = flags; index = 0 }

-- `self.index.saturating_add(1)` on `u8`
abbrev pub saturating_add_one : ℕ → ℕ
saturating_add_one i = min (i + 1) 255

-- The indices go up to 32 at most, and each call of `next` gets one more than that.
abbrev pub next_fuel : ℕ
next_fuel = 33

module _ {A : Type 0} (decode : ℕ → Option A) where
  -- `next`, which calls itself where the flag is clear, on fuel. The outer `none` means that the
  -- fuel ran out, the inner one is the end of the iterator.
  unfoldable pub next : ℕ → Iter → Option (Option A × Iter)
  next zero it = none
  next (suc fuel) it =
      let i = it.index in
      let it' : Iter = record it { index = saturating_add_one i } in
      let rest = next fuel it' in
      elim (decode i) [
        | none ↦ some (none, it')
        | some item ↦ if has_flag it.flags i then some (some item, it') else rest
      ]

  -- `for item in iter { … }`, or `collect`: `next` until it returns `None`.
  unfoldable pub collect : ℕ → Iter → Option (List A)
  collect zero it = none
  collect (suc fuel) it = elim (next next_fuel it) [
    | none ↦ none
    | some (o, it') ↦
        let rest = collect fuel it' in
        elim o [
          | none ↦ some []
          | some item ↦ elim rest [ none ↦ none | some items ↦ some (item ∷ items) ]
        ]
  ]

-- `FromIterator`: `set |= value(item)` for each item, from the set so far.
unfoldable pub collect_into : {A : Type 0} → (A → ℕ) → ℕ → List A → ℕ
collect_into value set [] = set
collect_into value set (item ∷ items) = collect_into value (bit_or set (value item)) items
