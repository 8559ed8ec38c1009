-- ===== src/Message/Tx/Header.antt =====
-- The words of the header that `build` makes, and what the readers of `Raw` find in them.
use mcan.Base.{
  ℕ, ◌+◌, ◌*◌, ◌^◌, ◌≤◌, ◌<◌, ◌≡◌, refl, bit_and, Bool, true, false, Option, arith, ◌==◌,
}
use mcan.Bits.{◌<<<◌, bit_or-shl, bit_and-ones}
use mcan.Message.Ids.{EmbeddedCan, Identifier, standard, extended}
use mcan.Message.Tx.{Frame, bool_u32, id_field, xtd, efc, marker_or_zero, t0, t1}

pub bool_u32-le : (b : Bool) → bool_u32 b ≤ 1
bool_u32-le true = omega arith
bool_u32-le false = omega arith

pub bool_u32-test : (b : Bool) → (bool_u32 b == 1) ≡ b
bool_u32-test true = refl
bool_u32-test false = refl

module _ {c : EmbeddedCan} where
  pub id_field-lt : (i : Identifier c) → id_field i < 2 ^ 29
  unfolding id_field
  id_field-lt (standard i) = omega (arith, c.standard_raw-le i)
  id_field-lt (extended i) = omega (arith, c.extended_raw-le i)

  pub t0_lem :
      (i : Identifier c) (f : Frame)
      → t0 i f
        ≡ id_field i + bool_u32 f.rtr * 2 ^ 29 + bool_u32 (xtd i) * 2 ^ 30 + bool_u32 f.esi * 2 ^ 31
  unfolding t0
  t0_lem i f =
      let fits = id_field-lt i in
      let r = bool_u32-le f.rtr in
      let x = bool_u32-le (xtd i) in
      let e = bool_u32-le f.esi in
      rw (
        bit_or-shl 29 (id_field i) (bool_u32 f.rtr) fits (omega arith),
        bit_or-shl 30 (id_field i + bool_u32 f.rtr * 2 ^ 29) (bool_u32 (xtd i)) (omega arith)
            (omega arith),
        bit_or-shl 31 (id_field i + bool_u32 f.rtr * 2 ^ 29 + bool_u32 (xtd i) * 2 ^ 30)
            (bool_u32 f.esi) (omega arith) (omega arith),
      )

pub t1_lem :
    (code : ℕ) (f : Frame) (event : Option ℕ)
    → code ≤ 15
    → marker_or_zero event < 256
    → t1 code f event
      ≡ code * 2 ^ 16
        + bool_u32 f.brs * 2 ^ 20
        + bool_u32 f.fdf * 2 ^ 21
        + bool_u32 (efc event) * 2 ^ 23
        + marker_or_zero event * 2 ^ 24
unfolding t1
t1_lem code f event small fits =
    let b = bool_u32-le f.brs in
    let d = bool_u32-le f.fdf in
    let e = bool_u32-le (efc event) in
    let low : bit_and code 0xf <<< 16 ≡ code * 2 ^ 16 =
      omega (arith, bit_and-ones 4 code (omega arith) (omega arith)) in
    rw (
      low,
      bit_or-shl 20 (code * 2 ^ 16) (bool_u32 f.brs) (omega arith) (omega arith),
      bit_or-shl 21 (code * 2 ^ 16 + bool_u32 f.brs * 2 ^ 20) (bool_u32 f.fdf) (omega arith)
          (omega arith),
      bit_or-shl 23 (code * 2 ^ 16 + bool_u32 f.brs * 2 ^ 20 + bool_u32 f.fdf * 2 ^ 21)
          (bool_u32 (efc event)) (omega arith) (omega arith),
      bit_or-shl 24
          (code * 2 ^ 16
            + bool_u32 f.brs * 2 ^ 20
            + bool_u32 f.fdf * 2 ^ 21
            + bool_u32 (efc event) * 2 ^ 23)
          (marker_or_zero event) (omega arith) (omega arith),
    )

pub efc-le : (event : Option ℕ) → bool_u32 (efc event) ≤ 1
efc-le event = bool_u32-le (efc event)
