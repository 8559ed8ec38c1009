-- ===== src/Reg/Fields/Agree/Check.antt =====
-- The check that the tables of a register agree, and what it shows.
use Prim.Native.String.{String}
use text.Mathlib.Text.{◌==◌ as str_eq}
use text.Mathlib.TextEquality.{eq_iff}
use mcan.Base.{
  ℕ, zero, suc, ◌+◌, ◌-◌, ◌%◌, ◌^◌, ◌≤◌, ◌<◌, ◌≡◌, ◌≢◌, refl, Bool, true, false, ◌&&◌, ◌||◌, leb,
  ◌==◌, if◌then◌else◌, [], ◌∷◌, some, arith, ◌∙◌, ap, sym, subst, inl, inr, Bool-cases,
}
use mcan.Bits.{bits_ext, test_bit-ones, bit_and-pow, ◌>>>◌, pow-le}
use mcan.Reg.Field.{
  mask, field_bits, field_reader, bit, bit_reader, test_bit-mask, mask-lt, field_reader-field_bits,
  field_reader-field_bits_other, flag, beside, beside-apart,
}
use mcan.Reg.Fields.Defs.{
  Reader, Writer, Readers, Writers, read_flag, read_field, write_flag, write_field, read, write,
  width, lookup,
}

abbrev pub offset : Writer → ℕ
offset (write_flag of) = of
offset (write_field wi of) = of

abbrev pub reader_offset : Reader → ℕ
reader_offset (read_flag of) = of
reader_offset (read_field of m) = of

abbrev pub reader_mask : Reader → ℕ
reader_mask (read_flag of) = 1
reader_mask (read_field of m) = m

-- The number of bits of the mask `m`, up to the fuel.
abbrev pub mask_width : ℕ → ℕ → ℕ
mask_width zero m = 0
mask_width (suc n) m = if 2 ^ suc n - 1 == m then suc n else mask_width n m

abbrev pub agrees : Writer → Reader → Bool
agrees w rd = offset w == reader_offset rd && 2 ^ width w - 1 == reader_mask rd

abbrev pub is_apart : Writer → Reader → Bool
is_apart w rd =
    let wi = mask_width 32 (reader_mask rd) in
    2 ^ wi - 1 == reader_mask rd
    && leb (wi + reader_offset rd) 32
    && beside (width w) (offset w) wi (reader_offset rd)

abbrev pub has_reader : String → Writer → Readers → Bool
has_reader name w [] = false
has_reader name w ((n, rd) ∷ rds) = if str_eq n name then agrees w rd else has_reader name w rds

abbrev pub are_apart : String → Writer → Readers → Bool
are_apart name w [] = true
are_apart name w ((n, rd) ∷ rds) = (str_eq n name || is_apart w rd) && are_apart name w rds

abbrev pub check : Readers → Writers → Bool
check rds [] = true
check rds ((n, w) ∷ ws) =
    leb (width w + offset w) 32 && has_reader n w rds && are_apart n w rds && check rds ws

-- A reader and a writer as those of a field.
mask_lem : (wi : ℕ) → wi ≤ 32 → mask wi ≡ 2 ^ wi - 1
mask_lem wi small =
    bits_ext 32 _ _ (mask-lt wi) (omega (arith, pow-le wi 32 small))
      λ i low. test_bit-mask wi i small ∙ sym (test_bit-ones wi i)

read_lem :
    (rd : Reader) (bits : ℕ) → read rd bits ≡ field_reader (reader_offset rd) (reader_mask rd) bits
unfolding read bit_reader field_reader
read_lem (read_flag of) bits = ground (arith, bit_and-pow 0 (bits >>> of))
read_lem (read_field of m) bits = refl

abbrev value_of : Writer → ℕ → ℕ
value_of (write_flag of) value = flag (value % 2 == 1)
value_of (write_field wi of) value = value

write_lem :
    (w : Writer) (value bits : ℕ)
    → write w value bits ≡ field_bits (width w) (offset w) (value_of w value) bits
unfolding write bit field_bits mask
write_lem (write_flag of) value bits = refl
write_lem (write_field wi of) value bits = refl

value_lem : (w : Writer) (value : ℕ) → value_of w value % 2 ^ width w ≡ value % 2 ^ width w
value_lem (write_flag of) value = ground arith
value_lem (write_field wi of) value = refl

module _ (w : Writer) (rd : Reader) (value bits : ℕ) (fits : bits < 2 ^ 32)
    (small : width w + offset w ≤ 32) where
  written :
      read rd (write w value bits)
      ≡ field_reader
          (reader_offset rd)
          (reader_mask rd)
          (field_bits (width w) (offset w) (value_of w value) bits)
  written =
      read_lem rd (write w value bits)
      ∙ ap (field_reader (reader_offset rd) (reader_mask rd)) (write_lem w value bits)

  agrees-read : agrees w rd ≡ true → read rd (write w value bits) ≡ value % 2 ^ width w
  agrees-read h =
      let of : reader_offset rd ≡ offset w = ground (arith, h) in
      let m : reader_mask rd ≡ mask (width w) =
        ground (arith, h, mask_lem (width w) (omega arith)) in
      let word : ℕ = field_bits (width w) (offset w) (value_of w value) bits in
      written
      ∙ (ap (λ (o : ℕ). field_reader o (reader_mask rd) word) of
          ∙ (ap (λ (k : ℕ). field_reader (offset w) k word) m
              ∙ (field_reader-field_bits (width w) (offset w) (value_of w value) bits small fits
                  ∙ value_lem w value)))

  apart-read : is_apart w rd ≡ true → read rd (write w value bits) ≡ read rd bits
  apart-read h =
      let k : ℕ = mask_width 32 (reader_mask rd) in
      let inside : k + reader_offset rd ≤ 32 = ground (arith, h) in
      let m : reader_mask rd ≡ mask k = ground (arith, h, mask_lem k (omega arith)) in
      let word : ℕ = field_bits (width w) (offset w) (value_of w value) bits in
      written
      ∙ (ap (λ (j : ℕ). field_reader (reader_offset rd) j word) m
          ∙ (field_reader-field_bits_other (width w) (offset w) (value_of w value) bits k
                (reader_offset rd) small inside fits
                (beside-apart (width w) (offset w) k (reader_offset rd) (ground (arith, h)))
              ∙ (ap (λ (j : ℕ). field_reader (reader_offset rd) j bits) (sym m)
                  ∙ sym (read_lem rd bits))))

module _ (w : Writer) (value bits : ℕ) (fits : bits < 2 ^ 32) (small : width w + offset w ≤ 32)
    (name : String) where
  has_reader-read :
      (rds : Readers)
      → has_reader name w rds ≡ true
      → (rd : Reader) × (lookup name rds ≡ some rd)
        × (read rd (write w value bits) ≡ value % 2 ^ width w)
  has_reader-read [] h = cc
  has_reader-read ((n, rd) ∷ rds) h = elim (Bool-cases (str_eq n name)) [
    | inl same ↦ (rd, rw same, agrees-read w rd value bits fits small (rw same at h))
    | inr other ↦ let r = has_reader-read rds (rw other at h) in (r.0, rw other r.1, r.2)
  ]

  are_apart-read :
      (rds : Readers) (other : String) (rd : Reader)
      → are_apart name w rds ≡ true
      → lookup other rds ≡ some rd
      → name ≢ other
      → read rd (write w value bits) ≡ read rd bits
  are_apart-read [] other rd h there apart = cc
  are_apart-read ((n, r) ∷ rds) other rd h there apart = elim (Bool-cases (str_eq n other)) [
    | inl same ↦
        let found : some r ≡ some rd = rw same at there in
        let e : r ≡ rd = cc found in
        let beside_it : is_apart w r ≡ true = elim (Bool-cases (str_eq n name)) [
          | inl own ↦ absurd (apart (sym ((eq_iff n name).0 own) ∙ (eq_iff n other).0 same))
          | inr no_own ↦ ground (arith, h, no_own)
        ] in
        subst (λ (x : Reader). read x (write w value bits) ≡ read x bits) e
          (apart-read w r value bits fits small beside_it)
    | inr differ ↦ are_apart-read rds other rd (ground (arith, h)) (rw differ at there) apart
  ]

pub check-reader :
    (rds : Readers) (ws : Writers) (name : String) (w : Writer) (value bits : ℕ)
    → check rds ws ≡ true
    → lookup name ws ≡ some w
    → bits < 2 ^ 32
    → (rd : Reader) × (lookup name rds ≡ some rd)
      × (read rd (write w value bits) ≡ value % 2 ^ width w)
check-reader rds [] name w value bits h here fits = cc
check-reader rds ((n, w') ∷ ws) name w value bits h here fits = elim (Bool-cases (str_eq n name)) [
  | inl own ↦
      let found : some w' ≡ some w = rw own at here in
      let e : w' ≡ w = cc found in
      let name_e : n ≡ name = (eq_iff n name).0 own in
      let small : width w' + offset w' ≤ 32 = ground (arith, h) in
      let has : has_reader n w' rds ≡ true = ground (arith, h) in
      has_reader-read w value bits fits (subst (λ (x : Writer). width x + offset x ≤ 32) e small)
        name rds
        (subst (λ (x : Writer). has_reader name x rds ≡ true) e
          (subst (λ (x : String). has_reader x w' rds ≡ true) name_e has))
  | inr other ↦ check-reader rds ws name w value bits (ground (arith, h)) (rw other at here) fits
]

pub check-other :
    (rds : Readers) (ws : Writers) (name other : String) (w : Writer) (rd : Reader) (value bits : ℕ)
    → check rds ws ≡ true
    → lookup name ws ≡ some w
    → lookup other rds ≡ some rd
    → name ≢ other
    → bits < 2 ^ 32
    → read rd (write w value bits) ≡ read rd bits
check-other rds [] name other w rd value bits h here there apart fits = cc
check-other rds ((n, w') ∷ ws) name other w rd value bits h here there apart fits =
    elim (Bool-cases (str_eq n name)) [
      | inl own ↦
          let found : some w' ≡ some w = rw own at here in
          let e : w' ≡ w = cc found in
          let name_e : n ≡ name = (eq_iff n name).0 own in
          let small : width w' + offset w' ≤ 32 = ground (arith, h) in
          let all : are_apart n w' rds ≡ true = ground (arith, h) in
          are_apart-read w value bits fits (subst (λ (x : Writer). width x + offset x ≤ 32) e small)
            name rds other rd
            (subst (λ (x : Writer). are_apart name x rds ≡ true) e
              (subst (λ (x : String). are_apart x w' rds ≡ true) name_e all))
            there apart
      | inr differ ↦
          check-other rds ws name other w rd value bits (ground (arith, h)) (rw differ at here)
            there apart fits
    ]
