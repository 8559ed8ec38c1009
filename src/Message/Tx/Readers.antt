-- ===== src/Message/Tx/Readers.antt =====
-- The readers of `Raw` give back what `build` put into the header.
use mcan.Base.{
  ℕ, ◌/◌, ◌%◌, ◌^◌, ◌≤◌, ◌<◌, ◌≡◌, bit_and, Bool, Option, arith, ◌==◌, ap, ◌∙◌, if◌then◌else◌,
}
use mcan.Bits.{u16, ◌>>>◌, bit_and-ones, has_flag, has_flag-div}
use mcan.Message.Ids.{EmbeddedCan, Identifier, standard, extended}
use mcan.Message.Raw.{
  RawMessage, is_extended, is_remote_frame, is_transmitter_error_passive, fd_format,
  bit_rate_switching, dlc, id, message_marker,
}
use mcan.Message.Tx.{Frame, bool_u32, id_field, xtd, marker_or_zero, t0, t1}
use mcan.Message.Tx.Header.{bool_u32-le, bool_u32-test, id_field-lt, t0_lem, t1_lem, efc-le}

-- A flag whose bit is known.
flag_lem : (x i : ℕ) (b : Bool) → i < 32 → x / 2 ^ i % 2 ≡ bool_u32 b → has_flag x i ≡ b
flag_lem x i b low e = has_flag-div x i low ∙ (ap (λ (y : ℕ). y == 1) e ∙ bool_u32-test b)

-- The message that `build` makes.
abbrev pub built : {c : EmbeddedCan} → Identifier c → ℕ → Frame → Option ℕ → RawMessage
built i code f event = record { header0 = t0 i f; header1 = t1 code f event; bytes = f.contents }

module _ {c : EmbeddedCan} where
  t0-lt : (i : Identifier c) (f : Frame) → t0 i f < 2 ^ 32
  t0-lt i f =
      omega (
        arith,
        t0_lem i f,
        id_field-lt i,
        bool_u32-le f.rtr,
        bool_u32-le (xtd i),
        bool_u32-le f.esi,
      )

module _ (c : EmbeddedCan) where
  extended_bits :
      (i : c.ExtendedId) (f : Frame)
      → bit_and (t0 {c = c} (extended i) f) c.extended_max ≡ c.extended_raw i
  unfolding id_field
  extended_bits i f = rw c.extended_max_lem (
      omega (
        arith,
        bit_and-ones 29 (t0 {c = c} (extended i) f) (omega arith) (t0-lt {c = c} (extended i) f),
        t0_lem {c = c} (extended i) f,
        c.extended_raw-le i,
      ))

  standard_bits :
      (i : c.StandardId) (f : Frame)
      → bit_and (u16 (t0 {c = c} (standard i) f >>> 18)) c.standard_max ≡ c.standard_raw i
  unfolding id_field
  standard_bits i f = rw c.standard_max_lem (
      omega (
        arith,
        bit_and-ones 11 (u16 (t0 {c = c} (standard i) f >>> 18)) (omega arith) (omega arith),
        t0_lem {c = c} (standard i) f,
        c.standard_raw-le i,
      ))

module _ {c : EmbeddedCan} where
  identifier_lem :
      (i : Identifier c) (f : Frame)
      → (if xtd i
          then extended (c.extended_new (bit_and (t0 i f) c.extended_max))
          else standard (c.standard_new (bit_and (u16 (t0 i f >>> 18)) c.standard_max)))
        ≡ i
  unfolding xtd
  identifier_lem (extended i) f = rw (extended_bits c i f, c.extended_new-raw i)
  identifier_lem (standard i) f = rw (standard_bits c i f, c.standard_new-raw i)

module _ {c : EmbeddedCan} (i : Identifier c) (code : ℕ) (f : Frame) (event : Option ℕ)
    (small : code ≤ 15) (fits : marker_or_zero event < 256) where
  pub is_remote_frame-built : is_remote_frame (built i code f event) ≡ f.rtr
  unfolding is_remote_frame
  is_remote_frame-built =
      flag_lem (t0 i f) 29 f.rtr (omega arith)
        (omega (arith, t0_lem i f, id_field-lt i, bool_u32-le f.rtr))

  is_extended-built : is_extended (built i code f event) ≡ xtd i
  unfolding is_extended
  is_extended-built =
      flag_lem (t0 i f) 30 (xtd i) (omega arith)
        (omega (arith, t0_lem i f, id_field-lt i, bool_u32-le f.rtr, bool_u32-le (xtd i)))

  pub is_transmitter_error_passive-built :
      is_transmitter_error_passive (built i code f event) ≡ f.esi
  unfolding is_transmitter_error_passive
  is_transmitter_error_passive-built = flag_lem (t0 i f) 31 f.esi (omega arith) (
      omega (
        arith,
        t0_lem i f,
        id_field-lt i,
        bool_u32-le f.rtr,
        bool_u32-le (xtd i),
        bool_u32-le f.esi,
      ))

  pub fd_format-built : fd_format (built i code f event) ≡ f.fdf
  unfolding fd_format
  fd_format-built =
      flag_lem (t1 code f event) 21 f.fdf (omega arith)
        (omega (arith, t1_lem code f event small fits, bool_u32-le f.brs, bool_u32-le f.fdf))

  pub bit_rate_switching-built : bit_rate_switching (built i code f event) ≡ f.brs
  unfolding bit_rate_switching
  bit_rate_switching-built =
      flag_lem (t1 code f event) 20 f.brs (omega arith)
        (omega (arith, t1_lem code f event small fits, bool_u32-le f.brs))

  pub dlc-built : dlc (built i code f event) ≡ code
  unfolding dlc
  dlc-built = omega (
    arith,
    bit_and-ones 4 (t1 code f event >>> 16) (omega arith) small_word,
    t1_lem code f event small fits,
    bool_u32-le f.brs,
  )
    where
      small_word : t1 code f event >>> 16 < 2 ^ 32
      small_word = omega (
        arith,
        t1_lem code f event small fits,
        bool_u32-le f.brs,
        bool_u32-le f.fdf,
        efc-le event,
      )

  pub message_marker-built : message_marker (built i code f event) ≡ marker_or_zero event
  unfolding message_marker
  message_marker-built =
      omega
        (arith, t1_lem code f event small fits, bool_u32-le f.brs, bool_u32-le f.fdf, efc-le event)

  pub id-built : id c (built i code f event) ≡ i
  unfolding id
  id-built = rw is_extended-built (identifier_lem i f)
