-- ===== src/Message/Tx.antt =====
-- Messages to be sent (mcan/src/message/tx.rs), and what makes them: `MessageBuilder::build`,
-- `as_tx_builder` (mcan/src/message/rx.rs) and `Frame` (mcan/src/message/mod.rs).
pub mod Header
pub mod Readers
pub mod Build
pub mod RoundTrip
use mcan.Base.{
  ℕ, ◌+◌, ◌-◌, ◌<◌, bit_and, bit_or, Bool, true, false, List, [], ◌++◌, length, replicate, ltb,
  if◌then◌else◌, Option, none, some, ◌∷◌,
}
use mcan.Bits.{u8, ◌<<<◌}
use mcan.Message.Dlc.{Result, ok, too_much_data, len_to_dlc, dlc_to_len}
use mcan.Message.Ids.{EmbeddedCan, Identifier, standard, extended}
use mcan.Message.Raw.{RawMessage, id, fd_format, bit_rate_switching, is_remote_frame, dlc, payload}

pub data ClassicFrameType : Type 0 where
  bytes : List ℕ → ClassicFrameType
  remote : ℕ → ClassicFrameType

-- `flexible_datarate payload bit_rate_switching force_error_state_indicator`
pub data FrameType : Type 0 where
  classic : ClassicFrameType → FrameType
  flexible_datarate : List ℕ → Bool → Bool → FrameType

pub record MessageBuilder (c : EmbeddedCan) : Type 0 where
  pub id : Identifier c
  pub frame_type : FrameType
  pub store_tx_event : Option ℕ

infixl 5 ◌>>=◌
abbrev ◌>>=◌ : {A B : Type 0} → Result A → (A → Result B) → Result B
ok a >>= f = f a
too_much_data >>= f = too_much_data

-- `copy_payload` into `N` bytes that were 0.
unfoldable pub copy_payload : ℕ → List ℕ → Result (List ℕ)
copy_payload n d = if ltb n (length d) then too_much_data else ok (d ++ replicate (n - length d) 0)

-- What the match on `frame_type` computes: FDF, BRS, ESI, RTR, the length, and the data.
pub record Frame : Type 0 where
  pub fdf : Bool
  pub brs : Bool
  pub esi : Bool
  pub rtr : Bool
  pub len : ℕ
  pub contents : List ℕ

unfoldable pub frame : ℕ → FrameType → Result Frame
unfolding copy_payload
frame n (classic (bytes d)) = do
  filled ← copy_payload n d
  ok (record {
    fdf = false;
    brs = false;
    esi = false;
    rtr = false;
    len = length d;
    contents = filled;
  })
frame n (classic (remote desired_len)) = ok (record {
  fdf = false;
  brs = false;
  esi = false;
  rtr = true;
  len = desired_len;
  contents = replicate n 0;
})
frame n (flexible_datarate d brs esi) = do
  filled ← copy_payload n d
  ok (record { fdf = true; brs = brs; esi = esi; rtr = false; len = length d; contents = filled })

-- `b as u32`
abbrev pub bool_u32 : Bool → ℕ
bool_u32 true = 1
bool_u32 false = 0

-- `store_tx_event.is_some()` and `store_tx_event.unwrap_or(0)`
abbrev pub efc : Option ℕ → Bool
efc none = false
efc (some marker) = true

abbrev pub marker_or_zero : Option ℕ → ℕ
marker_or_zero none = 0
marker_or_zero (some marker) = marker

module _ {c : EmbeddedCan} where
  unfoldable pub id_field : Identifier c → ℕ
  id_field (standard i) = c.standard_raw i <<< 18
  id_field (extended i) = c.extended_raw i

  unfoldable pub xtd : Identifier c → Bool
  xtd (standard i) = false
  xtd (extended i) = true

  -- The words of the header.
  unfoldable pub t0 : Identifier c → Frame → ℕ
  unfolding id_field xtd
  t0 i f =
      bit_or (bit_or (bit_or (id_field i) (bool_u32 f.rtr <<< 29)) (bool_u32 (xtd i) <<< 30))
        (bool_u32 f.esi <<< 31)

unfoldable pub t1 : ℕ → Frame → Option ℕ → ℕ
t1 dlc f event =
    bit_or
      (bit_or
        (bit_or (bit_or (bit_and dlc 0xf <<< 16) (bool_u32 f.brs <<< 20)) (bool_u32 f.fdf <<< 21))
        (bool_u32 (efc event) <<< 23))
      (marker_or_zero event <<< 24)

-- `.ok()`
abbrev pub ok? : {A : Type 0} → Result A → Option A
ok? (ok a) = some a
ok? too_much_data = none

module _ {c : EmbeddedCan} where
  -- `MessageBuilder::build` for messages of `n` bytes, and `tx::AnyMessage::new`.
  unfoldable pub build : ℕ → MessageBuilder c → Result RawMessage
  build n m = do
    f ← frame n m.frame_type
    dlc ← len_to_dlc f.len f.fdf
    ok (record { header0 = t0 m.id f; header1 = t1 dlc f m.store_tx_event; bytes = f.contents })

  -- `rx::AnyMessage::as_tx_builder`
  unfoldable pub as_tx_builder : RawMessage → MessageBuilder c
  as_tx_builder m = record {
    id = id c m;
    frame_type =
        if fd_format m
        then flexible_datarate (payload m) (bit_rate_switching m) false
        else classic (
            if is_remote_frame m
            then remote (dlc_to_len (dlc m) (fd_format m))
            else bytes (payload m));
    store_tx_event = none;
  }

  -- `Frame::new` and `Frame::new_remote` of `Message<N>`
  unfoldable pub new : ℕ → Identifier c → List ℕ → Option RawMessage
  unfolding build
  new n i d =
      ok? (build n (record { id = i; frame_type = classic (bytes d); store_tx_event = none }))

  unfoldable pub new_remote : ℕ → Identifier c → ℕ → Option RawMessage
  unfolding build dlc_to_len
  new_remote n i dlc =
      if ltb 15 dlc
      then none
      else ok? (
          build n (record {
            id = i;
            frame_type = classic (remote (dlc_to_len (u8 dlc) false));
            store_tx_event = none;
          }))
