-- ===== src/Filter/Extended.antt =====
-- Filter elements for extended identifiers by the layout of the data sheet: EFEC in bits 29 to 31 and
-- EFID1 in bits 0 to 28 of the first word, EFT in bits 30 to 31 and EFID2 in bits 0 to 28 of the second.
use mcan.Base.{
  ℕ, ◌+◌, ◌*◌, ◌/◌, ◌%◌, ◌^◌, ◌≤◌, ◌<◌, ◌≡◌, refl, bit_or, arith, ap, ◌∙◌, ◌==◌, if◌then◌else◌,
}
use mcan.Bits.{◌<<<◌, shl-bit_or}
use mcan.Message.Ids.{EmbeddedCan}
use mcan.Filter.{
  Action, action_u32, SbMsgType, msg_type_u32, ExtFilter, FilterExtendedId, filter_extended_id,
}
use mcan.Filter.Numbers.{
  action-bounds, msg_type-le, action_of, msg_type_of, action_of-action_u32,
  msg_type_of-msg_type_u32, buffer_fields,
}

-- The fields of an element.
pub record ExtElement : Type 0 where
  pub efec : ℕ
  pub efid1 : ℕ
  pub eft : ℕ
  pub efid2 : ℕ

abbrev pub ext_element : FilterExtendedId → ExtElement
ext_element f = record {
  efec = f.v1 / 2 ^ 29;
  efid1 = f.v1 % 2 ^ 29;
  eft = f.v2 / 2 ^ 30;
  efid2 = f.v2 % 2 ^ 29;
}

module _ (c : EmbeddedCan) where
  -- What the peripheral takes an element for by the data sheet, with the filter event pins:
  -- EFEC 0 disables it; with EFEC 7 it stores into a buffer, and EFID2 has the message type in bits 9 and
  -- 10, the event pins in bits 6 to 8 and the offset in bits 0 to 5; otherwise EFEC is the action and
  -- EFT the kind of filter.
  abbrev pub ext_interpret : ExtElement → ExtFilter c × ℕ
  ext_interpret e =
      if e.efec == 0
      then (ExtFilter.disabled, 0)
      else if e.efec == 7
      then (
        ExtFilter.store_buffer (c.extended_new e.efid1) (msg_type_of (e.efid2 / 2 ^ 9 % 2 ^ 2))
            (e.efid2 % 2 ^ 6),
        e.efid2 / 2 ^ 6 % 2 ^ 3,
      )
      else if e.eft == 0
      then (
        ExtFilter.masked_range (action_of e.efec) (c.extended_new e.efid1) (c.extended_new e.efid2),
        0,
      )
      else if e.eft == 1
      then (ExtFilter.dual (action_of e.efec) (c.extended_new e.efid1) (c.extended_new e.efid2), 0)
      else if e.eft == 2
      then (
        ExtFilter.classic (action_of e.efec) (c.extended_new e.efid1) (c.extended_new e.efid2),
        0,
      )
      else (ExtFilter.range (action_of e.efec) (c.extended_new e.efid1) (c.extended_new e.efid2), 0)

  -- A filter as the peripheral can have it, and the event pins: the offset keeps six bits, and its
  -- two other bits fall on the event pins.
  abbrev pub ext_taken : ExtFilter c → ExtFilter c × ℕ
  ext_taken ExtFilter.disabled = (ExtFilter.disabled, 0)
  ext_taken (ExtFilter.masked_range a x y) = (ExtFilter.masked_range a x y, 0)
  ext_taken (ExtFilter.dual a x y) = (ExtFilter.dual a x y, 0)
  ext_taken (ExtFilter.classic a x y) = (ExtFilter.classic a x y, 0)
  ext_taken (ExtFilter.range a x y) = (ExtFilter.range a x y, 0)
  ext_taken (ExtFilter.store_buffer i m offset) =
      (ExtFilter.store_buffer i m (offset % 2 ^ 6), offset / 2 ^ 6)

  -- The offset of a filter is a `u8`.
  abbrev pub HasExtOffset : ExtFilter c → Type 0
  HasExtOffset ExtFilter.disabled = Unit {0}
  HasExtOffset (ExtFilter.masked_range a l h) = Unit {0}
  HasExtOffset (ExtFilter.dual a l h) = Unit {0}
  HasExtOffset (ExtFilter.classic a l h) = Unit {0}
  HasExtOffset (ExtFilter.range a l h) = Unit {0}
  HasExtOffset (ExtFilter.store_buffer i m offset) = offset < 256

-- The fields of the words that the conversion makes, which stand at the shifts 29, 30 and 9.
high_word :
    (shift high low : ℕ)
    → low < 2 ^ shift
    → shift ≤ 32
    → high * 2 ^ shift < 2 ^ 32
    → bit_or (high <<< shift) low ≡ low + high * 2 ^ shift
high_word shift high low fits small bound =
    let e : high <<< shift ≡ high * 2 ^ shift = omega arith in
    rw e (shl-bit_or shift low high fits small bound)

ext_element-sum :
    {v1 v2 : ℕ} (efec efid1 eft efid2 : ℕ)
    → efid1 ≤ 0x1fff_ffff
    → efid2 ≤ 0x1fff_ffff
    → v1 ≡ efid1 + efec * 2 ^ 29
    → v2 ≡ efid2 + eft * 2 ^ 30
    → ext_element (record { v1 = v1; v2 = v2 })
      ≡ record { efec = efec; efid1 = efid1; eft = eft; efid2 = efid2 }
ext_element-sum efec efid1 eft efid2 h1 h2 e1 e2 = ground (arith, e1, e2)

module _ (c : EmbeddedCan) where
  ext_interpret_word :
      (w : FilterExtendedId) {e : ExtElement} {f : ExtFilter c × ℕ}
      → ext_element w ≡ e
      → ext_interpret c e ≡ f
      → ext_interpret c (ext_element w) ≡ f
  ext_interpret_word w p q = ap (λ (e : ExtElement). ext_interpret c e) p ∙ q

  -- A filter with an action and two identifiers.
  abbrev kind : ℕ → Action → c.ExtendedId → c.ExtendedId → ExtFilter c
  kind eft a x y =
      if eft == 0
      then ExtFilter.masked_range a x y
      else if eft == 1
      then ExtFilter.dual a x y
      else if eft == 2
      then ExtFilter.classic a x y
      else ExtFilter.range a x y

  ext_interpret-kind :
      (eft : ℕ) (a : Action) (x y : c.ExtendedId)
      → ext_interpret c (record {
        efec = action_u32 a;
        efid1 = c.extended_raw x;
        eft = eft;
        efid2 = c.extended_raw y;
      })
        ≡ (kind eft a x y, 0)
  ext_interpret-kind eft a x y =
      ground
        (arith, action-bounds a, action_of-action_u32 a, c.extended_new-raw x, c.extended_new-raw y)

  interpret_kind :
      (eft : ℕ) (a : Action) (x y : c.ExtendedId) (v2 : ℕ)
      → v2 ≡ c.extended_raw y + eft * 2 ^ 30
      → ext_interpret c
          (ext_element (record { v1 = bit_or (action_u32 a <<< 29) (c.extended_raw x); v2 = v2 }))
        ≡ (kind eft a x y, 0)
  interpret_kind eft a x y v2 e2 =
      let b = action-bounds a in
      let lx = c.extended_raw-le x in
      ext_interpret_word _
        (ext_element-sum (action_u32 a) (c.extended_raw x) eft (c.extended_raw y) lx
          (c.extended_raw-le y)
          (high_word 29 (action_u32 a) (c.extended_raw x) (omega arith) (omega arith) (omega arith))
          e2)
        (ext_interpret-kind eft a x y)

  second_word :
      (eft : ℕ) (y : c.ExtendedId)
      → eft ≤ 3
      → bit_or (eft <<< 30) (c.extended_raw y) ≡ c.extended_raw y + eft * 2 ^ 30
  second_word eft y h =
      let ly = c.extended_raw-le y in
      high_word 30 eft (c.extended_raw y) (omega arith) (omega arith) (omega arith)

  interpret_buffer :
      (i : c.ExtendedId) (m : SbMsgType) (offset : ℕ)
      → offset < 256
      → ext_interpret c (record {
        efec = 7;
        efid1 = c.extended_raw i;
        eft = 0;
        efid2 = offset + msg_type_u32 m * 2 ^ 9;
      })
        ≡ ext_taken c (ExtFilter.store_buffer i m offset)
  interpret_buffer i m offset fits =
      let (high, low, pins) = buffer_fields (msg_type_u32 m) offset (msg_type-le m) fits in
      rw (high, low, pins, msg_type_of-msg_type_u32 m, c.extended_new-raw i)

  -- The peripheral takes the two words that the driver writes for an extended filter for that filter, with no event
  -- pins; but of the offset of a filter that stores into a buffer, a `u8`, it keeps the lower six bits, and takes
  -- the two upper bits for event pins, so exactly an offset below 64 is taken as it was given.
  pub ext_interpret-filter_extended_id :
      (f : ExtFilter c)
      → HasExtOffset c f
      → ext_interpret c (ext_element (filter_extended_id f)) ≡ ext_taken c f
  unfolding filter_extended_id
  ext_interpret-filter_extended_id ExtFilter.disabled h = refl
  ext_interpret-filter_extended_id (ExtFilter.masked_range a x y) h =
      interpret_kind 0 a x y (c.extended_raw y) (omega arith)
  ext_interpret-filter_extended_id (ExtFilter.dual a x y) h =
      interpret_kind 1 a x y _ (second_word 1 y (omega arith))
  ext_interpret-filter_extended_id (ExtFilter.classic a x y) h =
      interpret_kind 2 a x y _ (second_word 2 y (omega arith))
  ext_interpret-filter_extended_id (ExtFilter.range a x y) h =
      interpret_kind 3 a x y _ (second_word 3 y (omega arith))
  ext_interpret-filter_extended_id (ExtFilter.store_buffer i m offset) h =
      let b = msg_type-le m in
      let l = c.extended_raw-le i in
      ext_interpret_word _
        (ext_element-sum 7 (c.extended_raw i) 0 (offset + msg_type_u32 m * 2 ^ 9) l (omega arith)
          (high_word 29 7 (c.extended_raw i) (omega arith) (omega arith) (omega arith))
          (high_word 9 (msg_type_u32 m) offset (omega arith) (omega arith) (omega arith)
            ∙ omega arith))
        (interpret_buffer i m offset (omega arith))
