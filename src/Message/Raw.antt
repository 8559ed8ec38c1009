-- ===== src/Message/Raw.antt =====
-- `RawMessage<N>` and its implementation of `Raw` (mcan/src/message/mod.rs), with `rx::Message`,
-- `tx::Message` and `TxEvent`, which wrap it and pass the calls of `Raw` on.
use mcan.Base.{
  ℕ, bit_and, min, Bool, not, List, [], take, length, leb, ◌==◌, if◌then◌else◌, Option, none, some,
}
use mcan.Bits.{u8, u16, has_flag, ◌>>>◌}
use mcan.Message.Dlc.{dlc_to_len}
use mcan.Message.Ids.{EmbeddedCan, Identifier, standard, extended}

-- The two words of the header and the `N` bytes of data.
pub record RawMessage : Type 0 where
  pub header0 : ℕ
  pub header1 : ℕ
  pub bytes : List ℕ

unfoldable pub is_extended : RawMessage → Bool
unfolding has_flag
is_extended m = has_flag m.header0 30

unfoldable pub is_remote_frame : RawMessage → Bool
unfolding has_flag
is_remote_frame m = has_flag m.header0 29

unfoldable pub is_transmitter_error_passive : RawMessage → Bool
unfolding has_flag
is_transmitter_error_passive m = has_flag m.header0 31

unfoldable pub fd_format : RawMessage → Bool
unfolding has_flag
fd_format m = has_flag m.header1 21

unfoldable pub bit_rate_switching : RawMessage → Bool
unfolding has_flag
bit_rate_switching m = has_flag m.header1 20

unfoldable pub dlc : RawMessage → ℕ
dlc m = u8 (bit_and (m.header1 >>> 16) 0xf)

unfoldable pub decoded_dlc : RawMessage → ℕ
decoded_dlc m = dlc_to_len (dlc m) (fd_format m)

-- `self.data.get(..n).unwrap_or(&[])`
abbrev pub get_to : ℕ → List ℕ → List ℕ
get_to n bytes = if leb n (length bytes) then take n bytes else []

-- The method `data`.
unfoldable pub payload : RawMessage → List ℕ
payload m =
    if not (is_remote_frame m) then get_to (min (decoded_dlc m) (length m.bytes)) m.bytes else []

module _ (c : EmbeddedCan) where
  unfoldable pub id : RawMessage → Identifier c
  id m =
      if is_extended m
      then extended (c.extended_new (bit_and m.header0 c.extended_max))
      else standard (c.standard_new (bit_and (u16 (m.header0 >>> 18)) c.standard_max))

-- Of `rx::AnyMessage`: `timestamp`, `accepted_non_matching_frame` and `filter_index`.
unfoldable pub timestamp : RawMessage → ℕ
timestamp m = u16 m.header1

unfoldable pub accepted_non_matching_frame : RawMessage → Bool
unfolding has_flag
accepted_non_matching_frame m = has_flag m.header1 31

unfoldable pub filter_index : RawMessage → Option ℕ
unfolding accepted_non_matching_frame
filter_index m =
    if accepted_non_matching_frame m then none else some (u8 (bit_and (m.header1 >>> 24) 0x7f))

-- Of `TxEvent`: `message_marker`, and `event_type` with `TxEventType::from`.
pub data TxEventType : Type 0 where
  reserved tx_event tx_in_spite_of_cancellation : TxEventType

unfoldable pub message_marker : RawMessage → ℕ
message_marker m = u8 (m.header1 >>> 24)

unfoldable pub event_type_from : ℕ → TxEventType
event_type_from value =
    if value == 1 then tx_event else if value == 2 then tx_in_spite_of_cancellation else reserved

unfoldable pub event_type : RawMessage → TxEventType
unfolding event_type_from
event_type m = event_type_from (bit_and (m.header1 >>> 22) 3)
