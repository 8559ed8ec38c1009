-- ===== src/TxBufferSet.antt =====
-- `TxBufferSet` and its `Iter` (mcan/src/tx_buffers.rs).
pub mod Laws
use mcan.Base.{ℕ, Option, none, some, List, [], ◌∷◌, bit_or, ltb, if◌then◌else◌}
use mcan.Bits.{◌<<<◌}
use mcan.FlagIter
use mcan.FlagIter.{Iter}

pub record TxBufferSet : Type 0 where
  pub bits : ℕ

-- `1u32 << i`, which panics from 32 on: `none`.
unfoldable pub checked_one_shl : ℕ → Option ℕ
checked_one_shl i = if ltb i 32 then some (1 <<< i) else none

-- `from_iter`: the loop `set |= 1u32 << i` from the set so far.
unfoldable pub insert_all : ℕ → List ℕ → Option ℕ
unfolding checked_one_shl
insert_all set [] = some set
insert_all set (i ∷ is) = elim (checked_one_shl i) [
  | none ↦ none
  | some b ↦ insert_all (bit_or set b) is
]

unfoldable pub from_iter : List ℕ → Option TxBufferSet
unfolding insert_all
from_iter is = elim (insert_all 0 is) [ none ↦ none | some set ↦ some (record { bits = set }) ]

unfoldable pub all : TxBufferSet
all = record { bits = 0xffff_ffff }

-- `TxBufferSet::iter`
unfoldable pub iter : TxBufferSet → Iter
iter set = record { flags = set.bits; index = 0 }

-- The buffer that an index of `Iter` stands for: `if i > 31 { None } else { … Some(i as usize) }`.
abbrev pub buffer_at : ℕ → Option ℕ
buffer_at i = if ltb 31 i then none else some i

-- `next` and the loop over an iterator, on fuel.
unfoldable pub next : ℕ → Iter → Option (Option ℕ × Iter)
next fuel it = FlagIter.next buffer_at fuel it

unfoldable pub collect : ℕ → Iter → Option (List ℕ)
collect fuel it = FlagIter.collect buffer_at fuel it
