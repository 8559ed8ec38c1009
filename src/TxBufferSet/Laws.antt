-- ===== src/TxBufferSet/Laws.antt =====
-- Sets of transmit buffers as sets of indices (mcan/src/tx_buffers.rs).
use mcan.Base.{
  ℕ, zero, suc, ◌+◌, ◌^◌, ◌-◌, ◌≤◌, ◌<◌, ◌≡◌, refl, Bool, false, ◌||◌, some, List, [], ◌∷◌, length,
  bit_or, bit_and, ◌==◌, arith, ◌∙◌, ap, lt→ltb, Bool-cases, inl, inr,
}
use mcan.Bits.{
  test_bit, has_flag, test_bit-bit_or, test_bit-pow, test_bit-zero, one-shl, ◌<<<◌, bit_and-ones,
}
use mcan.FlagIter
use mcan.FlagIter.{flagged, Decodes, Values, collect_into}
use mcan.TxBufferSet.{TxBufferSet, checked_one_shl, insert_all, from_iter, iter, buffer_at, collect}

abbrev pub is_member : ℕ → List ℕ → Bool
is_member j [] = false
is_member j (i ∷ is) = (i == j) || is_member j is

abbrev pub AllBelow : ℕ → List ℕ → Type 0
AllBelow n [] = Unit {0}
AllBelow n (i ∷ is) = (i < n) × AllBelow n is

-- The indices from `i` on, `n` of them.
abbrev pub upto : ℕ → ℕ → List ℕ
upto zero i = []
upto (suc n) i = i ∷ upto n (suc i)

checked_one_shl-lt : (i : ℕ) → i < 32 → checked_one_shl i ≡ some (1 <<< i)
unfolding checked_one_shl
checked_one_shl-lt i h = rw (lt→ltb i 32 h)

insert_all_lem :
    (set : ℕ) (is : List ℕ) (j : ℕ)
    → AllBelow 32 is
    → (r : ℕ) × (insert_all set is ≡ some r) × (test_bit r j ≡ (test_bit set j || is_member j is))
unfolding insert_all
insert_all_lem set [] j low = (set, refl, ground arith)
insert_all_lem set (i ∷ is) j low =
    let r = insert_all_lem (bit_or set (1 <<< i)) is j low.1 in
    (
      r.0,
      rw (insert_all, checked_one_shl-lt i low.0) r.1,
      r.2 ∙ ground (arith, test_bit-bit_or j set (1 <<< i), one-shl i low.0, test_bit-pow i j),
    )

-- Collecting indices below 32 does not panic, and gives the set of exactly these.
pub from_iter_lem :
    (is : List ℕ) (j : ℕ)
    → AllBelow 32 is
    → (s : TxBufferSet) × (from_iter is ≡ some s) × (test_bit s.bits j ≡ is_member j is)
unfolding from_iter
from_iter_lem is j low =
    let r = insert_all_lem 0 is j low in
    (record { bits = r.0 }, rw (from_iter, r.1), r.2 ∙ ground (arith, test_bit-zero j))

-- Enough fuel for the loop over a set.
abbrev pub all_fuel : ℕ
all_fuel = 33

upto-Decodes : (n i : ℕ) → i + n ≡ 32 → Decodes buffer_at i (upto n i)
upto-Decodes zero i e = ground arith
upto-Decodes (suc n) i e = (ground arith, upto-Decodes n (suc i) (omega arith))

upto-Values : (n i : ℕ) → Values (λ (i : ℕ). 1 <<< i) i (upto n i)
upto-Values zero i = tt
upto-Values (suc n) i = (refl, upto-Values n (suc i))

length-upto : (n i : ℕ) → length (upto n i) ≡ n
length-upto zero i = refl
length-upto (suc n) i = ap suc (length-upto n (suc i))

flagged-AllBelow : (flags n i : ℕ) → i + n ≤ 32 → AllBelow 32 (flagged flags i (upto n i))
flagged-AllBelow flags zero i e = tt
flagged-AllBelow flags (suc n) i e = elim (Bool-cases (has_flag flags i)) [
  | inl set ↦ rw set (omega arith, flagged-AllBelow flags n (suc i) (omega arith))
  | inr clear ↦ rw clear (flagged-AllBelow flags n (suc i) (omega arith))
]

insert_all-collect_into :
    (set : ℕ) (is : List ℕ)
    → AllBelow 32 is
    → insert_all set is ≡ some (collect_into (λ (i : ℕ). 1 <<< i) set is)
unfolding insert_all collect_into
insert_all-collect_into set [] low = refl
insert_all-collect_into set (i ∷ is) low =
    rw (insert_all, checked_one_shl-lt i low.0)
      (insert_all-collect_into (bit_or set (1 <<< i)) is low.1)

collect-iter :
    (set : TxBufferSet) → collect all_fuel (iter set) ≡ some (flagged set.bits 0 (upto 32 0))
unfolding collect iter
collect-iter set =
    FlagIter.collect-iter buffer_at set.bits all_fuel (upto 32 0) (omega arith) (omega arith)
      (upto-Decodes 32 0 refl)

all_bits : (x : ℕ) → x < 2 ^ 32 → bit_and x (2 ^ 32 - 1) ≡ x
all_bits x fits = bit_and-ones 32 x (omega arith) fits ∙ omega arith

-- The loop over `iter` of a set ends, yields indices of buffers, each below 32, and collecting these
-- does not panic and gives the set again.
pub from_iter-iter_set :
    (set : TxBufferSet)
    → set.bits < 2 ^ 32
    → (is : List ℕ) × (collect all_fuel (iter set) ≡ some is)
      × AllBelow 32 is
      × (from_iter is ≡ some set)
unfolding from_iter
from_iter-iter_set set fits = (
  flagged set.bits 0 (upto 32 0),
  collect-iter set,
  flagged-AllBelow set.bits 32 0 (omega arith),
  rw (
    from_iter,
    insert_all-collect_into 0 (flagged set.bits 0 (upto 32 0))
        (flagged-AllBelow set.bits 32 0 (omega arith)),
    FlagIter.collect_into-flagged (λ (i : ℕ). 1 <<< i) set.bits (upto 32 0) (omega arith) fits
        (upto-Values 32 0),
    all_bits set.bits fits,
  ),
)
