-- ===== src/Filter/Standard/Layout.antt =====
-- The layout of filter elements for standard identifiers: SFT in bits 30 to 31, SFEC in bits 27 to 29, SFID1 in
-- bits 16 to 26, SFID2 in bits 0 to 10.
use mcan.Base.{ℕ, ◌+◌, ◌*◌, ◌/◌, ◌%◌, ◌^◌, ◌≤◌, ◌<◌, ◌≡◌, bit_or, arith}
use mcan.Bits.{◌<<<◌, bit_or-shl, shl-bit_or}

-- The fields of an element.
pub record Element : Type 0 where
  pub sft : ℕ
  pub sfec : ℕ
  pub sfid1 : ℕ
  pub sfid2 : ℕ

abbrev pub element : ℕ → Element
element w = record {
  sft = w / 2 ^ 30;
  sfec = w / 2 ^ 27 % 8;
  sfid1 = w / 2 ^ 16 % 2 ^ 11;
  sfid2 = w % 2 ^ 11;
}

pub element-sum :
    (sfid2 sfid1 sfec sft : ℕ)
    → sfid2 ≤ 0x7ff
    → sfid1 ≤ 0x7ff
    → sfec ≤ 7
    → sft ≤ 3
    → element (sfid2 + sfid1 * 2 ^ 16 + sfec * 2 ^ 27 + sft * 2 ^ 30)
      ≡ record { sft = sft; sfec = sfec; sfid1 = sfid1; sfid2 = sfid2 }
element-sum sfid2 sfid1 sfec sft h2 h1 he ht = ground arith

pub element-sum3 :
    (sfid2 sfid1 sfec : ℕ)
    → sfid2 ≤ 0x7ff
    → sfid1 ≤ 0x7ff
    → sfec ≤ 7
    → element (sfid2 + sfid1 * 2 ^ 16 + sfec * 2 ^ 27)
      ≡ record { sft = 0; sfec = sfec; sfid1 = sfid1; sfid2 = sfid2 }
element-sum3 sfid2 sfid1 sfec h2 h1 he = ground arith

pub element-buffer :
    (id msg offset : ℕ)
    → id ≤ 0x7ff
    → msg ≤ 3
    → offset < 2 ^ 9
    → element (offset + msg * 2 ^ 9 + id * 2 ^ 16 + 0x7 * 2 ^ 27)
      ≡ record { sft = 0; sfec = 7; sfid1 = id; sfid2 = offset + msg * 2 ^ 9 }
element-buffer id msg offset hi hm ho = ground arith

-- The words that the conversion makes.
pub word3 :
    (sfid2 sfid1 sfec : ℕ)
    → sfid2 ≤ 0x7ff
    → sfid1 ≤ 0x7ff
    → sfec ≤ 7
    → bit_or (bit_or sfid2 (sfid1 <<< 16)) (sfec <<< 27) ≡ sfid2 + sfid1 * 2 ^ 16 + sfec * 2 ^ 27
word3 sfid2 sfid1 sfec h2 h1 he = rw (
  bit_or-shl 16 sfid2 sfid1 (omega arith) (omega arith),
  bit_or-shl 27 (sfid2 + sfid1 * 2 ^ 16) sfec (omega arith) (omega arith),
)

pub word4 :
    (sfid2 sfid1 sfec sft : ℕ)
    → sfid2 ≤ 0x7ff
    → sfid1 ≤ 0x7ff
    → sfec ≤ 7
    → sft ≤ 3
    → bit_or (bit_or (bit_or sfid2 (sfid1 <<< 16)) (sfec <<< 27)) (sft <<< 30)
      ≡ sfid2 + sfid1 * 2 ^ 16 + sfec * 2 ^ 27 + sft * 2 ^ 30
word4 sfid2 sfid1 sfec sft h2 h1 he ht = rw (
  word3 sfid2 sfid1 sfec h2 h1 he,
  bit_or-shl 30 (sfid2 + sfid1 * 2 ^ 16 + sfec * 2 ^ 27) sft (omega arith) (omega arith),
)

pub buffer_word :
    (id msg offset : ℕ)
    → id ≤ 0x7ff
    → msg ≤ 3
    → offset < 2 ^ 9
    → bit_or (bit_or (bit_or (id <<< 16) (msg <<< 9)) offset) (0x7 <<< 27)
      ≡ offset + msg * 2 ^ 9 + id * 2 ^ 16 + 0x7 * 2 ^ 27
buffer_word id msg offset hi hm ho =
    let e : id <<< 16 ≡ id * 2 ^ 16 = omega arith in
    let e' : msg <<< 9 ≡ msg * 2 ^ 9 = omega arith in
    let grouped : msg * 2 ^ 9 + id * 2 ^ 16 ≡ (msg + id * 2 ^ 7) * 2 ^ 9 = omega arith in
    rw
      (
        e,
        e',
        shl-bit_or 16 (msg * 2 ^ 9) id (omega arith) (omega arith) (omega arith),
        grouped,
        shl-bit_or 9 offset (msg + id * 2 ^ 7) ho (omega arith) (omega arith),
        bit_or-shl 27 (offset + (msg + id * 2 ^ 7) * 2 ^ 9) 0x7 (omega arith) (omega arith),
      )
      (omega arith)
