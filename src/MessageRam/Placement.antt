-- ===== src/MessageRam/Placement.antt =====
-- Where the sections of the shared memory lie (mcan/src/messageram.rs).
use mcan.Base.{ℕ, ◌+◌, ◌-◌, ◌^◌, ◌%◌, ◌≤◌, ◌<◌, ◌≡◌, ◌↔◌, true, arith}
use mcan.Bits.{u16}
use mcan.Base.{refl, ◌⊎◌, inl, inr, List, [], ◌∷◌, Bool, false, ◌≢◌, sym, ap, ◌∙◌}
use mathlib.Core.Logic.{ite, if_pos, if_neg}
use mcan.MessageRam.{
  offset_in, Capacities, Section, filters_standard, filters_extended, rx_fifo_0, rx_fifo_1,
  rx_dedicated_buffers, tx_event_fifo, tx_buffers, section_bytes, offset, size_of, is_addressable,
  Section-discrete, shared_memory_inner,
}

-- The check succeeds exactly if the offsets of the first and the last byte of the memory, which is not
-- empty, from the start of the eligible region are not negative and fit in 16 bits.
pub is_addressable_iff :
    (size start eligible : ℕ)
    → 0 < size
    → (is_addressable size start eligible ≡ true)
      ↔ ((eligible ≤ start) × (start + (size - 1) - eligible < 2 ^ 16))
unfolding is_addressable
is_addressable_iff size start eligible full = ground arith

-- Every section lies inside the memory.
pub offset-le : (c : Capacities) (s : Section) → offset c s + section_bytes c s ≤ size_of c
unfolding offset size_of shared_memory_inner Section-discrete
offset-le c filters_standard = omega arith
offset-le c filters_extended = omega arith
offset-le c rx_fifo_0 = omega arith
offset-le c rx_fifo_1 = omega arith
offset-le c rx_dedicated_buffers = omega arith
offset-le c tx_event_fifo = omega arith
offset-le c tx_buffers = omega arith

-- The low half of the address of a section that is not empty, in a memory that is addressable from an aligned
-- start, is its offset from there.
pub u16-address :
    (c : Capacities) (s : Section) (start eligible : ℕ)
    → is_addressable (size_of c) start eligible ≡ true
    → eligible % 2 ^ 16 ≡ 0
    → 0 < section_bytes c s
    → eligible + u16 (start + offset c s) ≡ start + offset c s
unfolding is_addressable
u16-address c s start eligible fits aligned full =
    let inside = offset-le c s in
    let l : eligible ≤ start = ground (arith, fits) in
    let h : start + size_of c - eligible ≤ 2 ^ 16 = ground (arith, fits) in omega arith

-- One of the two sections ends before the other begins.
abbrev pub AreApart : Capacities → Section → Section → Type 0
AreApart c s q =
    (offset c s + section_bytes c s ≤ offset c q) ⊎ (offset c q + section_bytes c q ≤ offset c s)

module _ (c : Capacities) where
  abbrev at : Section → ℕ → List Section → ℕ
  at s start qs = offset_in c s start qs

  at-here : (s q : Section) (start : ℕ) (qs : List Section) → q ≡ s → at s start (q ∷ qs) ≡ start
  at-here s q start qs e =
      if_pos (Section-discrete q s) e start (at s (start + section_bytes c q) qs)

  at-next :
      (s q : Section) (start : ℕ) (qs : List Section)
      → q ≢ s
      → at s start (q ∷ qs) ≡ at s (start + section_bytes c q) qs
  at-next s q start qs ne =
      if_neg (Section-discrete q s) ne start (at s (start + section_bytes c q) qs)

  start-le : (s : Section) (start : ℕ) (qs : List Section) → start ≤ at s start qs
  start-le s start [] = omega arith
  start-le s start (q ∷ qs) = elim (Section-discrete q s) [
    | yes e ↦ omega (arith, at-here s q start qs e)
    | no ne ↦ omega (arith, at-next s q start qs ne, start-le s (start + section_bytes c q) qs)
  ]

  abbrev has : Section → List Section → Bool
  has s [] = false
  has s (q ∷ qs) = ite (Section-discrete q s) true (has s qs)

  has-next : (s q : Section) (qs : List Section) → q ≢ s → has s (q ∷ qs) ≡ has s qs
  has-next s q qs ne = if_neg (Section-discrete q s) ne true (has s qs)

  -- Of two sections of a list, the one that is found first ends before the other.
  at-apart :
      (s q : Section) (start : ℕ) (qs : List Section)
      → s ≢ q
      → has s qs ≡ true
      → has q qs ≡ true
      → (at s start qs + section_bytes c s ≤ at q start qs)
        ⊎ (at q start qs + section_bytes c q ≤ at s start qs)
  at-apart s q start [] ne i j = absurd cc
  at-apart s q start (x ∷ qs) ne i j =
      let next : ℕ = start + section_bytes c x in
      elim (Section-discrete x s) [
        | yes e ↦ elim (Section-discrete x q) [
          | yes f ↦ absurd (ne (sym e ∙ f))
          | no g ↦ inl (
              omega (
                arith,
                at-here s x start qs e,
                at-next q x start qs g,
                start-le q next qs,
                ap (section_bytes c) e,
              ))
        ]
        | no h ↦ elim (Section-discrete x q) [
          | yes f ↦ inr (
              omega (
                arith,
                at-here q x start qs f,
                at-next s x start qs h,
                start-le s next qs,
                ap (section_bytes c) f,
              ))
          | no g ↦
              rw (at-next s x start qs h, at-next q x start qs g)
                (at-apart s q next qs ne (sym (has-next s x qs h) ∙ i)
                  (sym (has-next q x qs g) ∙ j))
        ]
      ]

  has-all : (s : Section) → has s shared_memory_inner ≡ true
  unfolding Section-discrete shared_memory_inner
  has-all filters_standard = refl
  has-all filters_extended = refl
  has-all rx_fifo_0 = refl
  has-all rx_fifo_1 = refl
  has-all rx_dedicated_buffers = refl
  has-all tx_event_fifo = refl
  has-all tx_buffers = refl

  -- Every section of the memory lies inside it, and does not share a byte with any other.
  pub offset-AreApart :
      (s q : Section) → s ≢ q → (offset c s + section_bytes c s ≤ size_of c) × AreApart c s q
  unfolding offset
  offset-AreApart s q ne =
      (offset-le c s, at-apart s q 0 shared_memory_inner ne (has-all s) (has-all q))
