-- ===== src/Filter/Standard.antt =====
-- Filter elements for standard identifiers (mcan/src/filter.rs) as the data sheet reads them.
mod Layout
pub use Layout.{Element, element}
use mcan.Base.{
  ℕ, ◌+◌, ◌*◌, ◌/◌, ◌%◌, ◌^◌, ◌≤◌, ◌<◌, ◌≡◌, refl, bit_or, arith, ap, ◌∙◌, ◌==◌, if◌then◌else◌,
}
use mcan.Message.Ids.{EmbeddedCan}
use mcan.Filter.{Action, action_u32, SbMsgType, msg_type_u32, Filter, filter_standard_id}
use mcan.Filter.Numbers.{
  action-bounds, msg_type-le, action_of, msg_type_of, action_of-action_u32,
  msg_type_of-msg_type_u32, buffer_fields,
}
use mcan.Filter.Standard.Layout.{
  element-sum, element-sum3, element-buffer, word3, word4, buffer_word,
}

module _ (c : EmbeddedCan) where
  -- What the peripheral takes an element for by the data sheet, with the filter event pins: SFEC 0 disables it; with
  -- SFEC 7 it stores into a buffer, and SFID2 has the message type in bits 9 and 10, the event pins in bits 6 to 8
  -- and the offset in bits 0 to 5; otherwise SFEC is the action and SFT the kind of filter, of which 3 disables
  -- the element.
  abbrev pub interpret : Element → Filter c × ℕ
  interpret e =
      if e.sfec == 0
      then (Filter.disabled, 0)
      else if e.sfec == 7
      then (
        Filter.store_buffer (c.standard_new e.sfid1) (msg_type_of (e.sfid2 / 2 ^ 9 % 2 ^ 2))
            (e.sfid2 % 2 ^ 6),
        e.sfid2 / 2 ^ 6 % 2 ^ 3,
      )
      else if e.sft == 0
      then (Filter.range (action_of e.sfec) (c.standard_new e.sfid1) (c.standard_new e.sfid2), 0)
      else if e.sft == 1
      then (Filter.dual (action_of e.sfec) (c.standard_new e.sfid1) (c.standard_new e.sfid2), 0)
      else if e.sft == 2
      then (Filter.classic (action_of e.sfec) (c.standard_new e.sfid1) (c.standard_new e.sfid2), 0)
      else (Filter.disabled, 0)

  -- A filter as the peripheral can have it, and the event pins: the offset keeps six bits, and its
  -- two other bits fall on the event pins.
  abbrev pub taken : Filter c → Filter c × ℕ
  taken Filter.disabled = (Filter.disabled, 0)
  taken (Filter.range a x y) = (Filter.range a x y, 0)
  taken (Filter.dual a x y) = (Filter.dual a x y, 0)
  taken (Filter.classic a x y) = (Filter.classic a x y, 0)
  taken (Filter.store_buffer i m offset) =
      (Filter.store_buffer i m (offset % 2 ^ 6), offset / 2 ^ 6)

  -- The offset of a filter is a `u8`.
  abbrev pub HasOffset : Filter c → Type 0
  HasOffset Filter.disabled = Unit {0}
  HasOffset (Filter.range a l h) = Unit {0}
  HasOffset (Filter.dual a l h) = Unit {0}
  HasOffset (Filter.classic a l h) = Unit {0}
  HasOffset (Filter.store_buffer i m offset) = offset < 256

module _ (c : EmbeddedCan) where
  interpret-range :
      (a : Action) (x y : c.StandardId)
      → interpret c (record {
        sft = 0;
        sfec = action_u32 a;
        sfid1 = c.standard_raw x;
        sfid2 = c.standard_raw y;
      })
        ≡ (Filter.range a x y, 0)
  interpret-range a x y =
      ground
        (arith, action-bounds a, action_of-action_u32 a, c.standard_new-raw x, c.standard_new-raw y)

  interpret-dual :
      (a : Action) (x y : c.StandardId)
      → interpret c (record {
        sft = 1;
        sfec = action_u32 a;
        sfid1 = c.standard_raw x;
        sfid2 = c.standard_raw y;
      })
        ≡ (Filter.dual a x y, 0)
  interpret-dual a x y =
      ground
        (arith, action-bounds a, action_of-action_u32 a, c.standard_new-raw x, c.standard_new-raw y)

  interpret-classic :
      (a : Action) (x y : c.StandardId)
      → interpret c (record {
        sft = 2;
        sfec = action_u32 a;
        sfid1 = c.standard_raw x;
        sfid2 = c.standard_raw y;
      })
        ≡ (Filter.classic a x y, 0)
  interpret-classic a x y =
      ground
        (arith, action-bounds a, action_of-action_u32 a, c.standard_new-raw x, c.standard_new-raw y)

  interpret-store_buffer :
      (i : c.StandardId) (m : SbMsgType) (offset : ℕ)
      → offset < 256
      → interpret c (record {
        sft = 0;
        sfec = 7;
        sfid1 = c.standard_raw i;
        sfid2 = offset + msg_type_u32 m * 2 ^ 9;
      })
        ≡ taken c (Filter.store_buffer i m offset)
  interpret-store_buffer i m offset fits =
      let (high, low, pins) = buffer_fields (msg_type_u32 m) offset (msg_type-le m) fits in
      rw (high, low, pins, msg_type_of-msg_type_u32 m, c.standard_new-raw i)

  interpret_word :
      {w w' : ℕ} {e : Element} {f : Filter c × ℕ}
      → w ≡ w'
      → element w' ≡ e
      → interpret c e ≡ f
      → interpret c (element w) ≡ f
  interpret_word p q r =
      ap (λ (w : ℕ). interpret c (element w)) p ∙ (ap (λ (e : Element). interpret c e) q ∙ r)

  -- The peripheral takes the element that the driver writes for a filter for that filter, with no event pins; but
  -- of the offset of a filter that stores into a buffer, a `u8`, it keeps the lower six bits, and takes the two
  -- upper bits for event pins, so exactly an offset below 64 is taken as it was given.
  pub interpret-filter_standard_id :
      (f : Filter c) → HasOffset c f → interpret c (element (filter_standard_id f)) ≡ taken c f
  unfolding filter_standard_id
  interpret-filter_standard_id Filter.disabled h = refl
  interpret-filter_standard_id (Filter.range a low high) h =
      let b = action-bounds a in
      let l = c.standard_raw-le low in
      let u = c.standard_raw-le high in
      interpret_word
        (word3 (c.standard_raw high) (c.standard_raw low) (action_u32 a) u l (omega arith))
        (element-sum3 (c.standard_raw high) (c.standard_raw low) (action_u32 a) u l (omega arith))
        (interpret-range a low high)
  interpret-filter_standard_id (Filter.dual a id1 id2) h =
      let b = action-bounds a in
      let l = c.standard_raw-le id1 in
      let u = c.standard_raw-le id2 in
      interpret_word
        (word4 (c.standard_raw id2) (c.standard_raw id1) (action_u32 a) 1 u l (omega arith)
          (omega arith))
        (element-sum (c.standard_raw id2) (c.standard_raw id1) (action_u32 a) 1 u l (omega arith)
          (omega arith))
        (interpret-dual a id1 id2)
  interpret-filter_standard_id (Filter.classic a filter mask) h =
      let b = action-bounds a in
      let l = c.standard_raw-le filter in
      let u = c.standard_raw-le mask in
      interpret_word
        (word4 (c.standard_raw mask) (c.standard_raw filter) (action_u32 a) 2 u l (omega arith)
          (omega arith))
        (element-sum (c.standard_raw mask) (c.standard_raw filter) (action_u32 a) 2 u l
          (omega arith) (omega arith))
        (interpret-classic a filter mask)
  interpret-filter_standard_id (Filter.store_buffer i m offset) h =
      let b = msg_type-le m in
      let l = c.standard_raw-le i in
      interpret_word (buffer_word (c.standard_raw i) (msg_type_u32 m) offset l b (omega arith))
        (element-buffer (c.standard_raw i) (msg_type_u32 m) offset l b (omega arith))
        (interpret-store_buffer i m offset (omega arith))
