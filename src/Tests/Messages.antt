-- ===== src/Tests/Messages.antt =====
-- The theorems on messages at concrete inputs.
use mcan.Base.{
  ℕ, ◌-◌, ◌<◌, ◌≤◌, ◌≡◌, ◌↔◌, ◌⊎◌, refl, true, false, arith, min, none, some, List, [], ◌∷◌, ◌++◌,
  length, replicate,
}
use mcan.Message.Dlc.{ok, too_much_data, len_to_dlc, dlc_to_len}
use mcan.Message.Dlc.Laws.{max_len, len_to_dlc-smallest, len_to_dlc-wraps}
use mcan.Message.Ids.{Identifier, standard, extended}
use mcan.Message.Raw.{RawMessage, message_marker, is_transmitter_error_passive}
use mcan.Message.Tx.{bytes, remote, classic, flexible_datarate, build, as_tx_builder}
use mcan.Message.Tx.Build.{payload_len, frame_of, build-too_much_data}
use mcan.Message.Tx.RoundTrip.{
  as_tx_builder-build_bytes, as_tx_builder-build_flexible_datarate, as_tx_builder-build_remote,
}
use mcan.Tests.Fixtures.{ids, clamp}

len_to_dlc-smallest_example : (33 ≤ dlc_to_len 14 true) × (14 ≤ 15) × (14 ≤ 15)
unfolding len_to_dlc dlc_to_len
len_to_dlc-smallest_example =
    len_to_dlc-smallest 33 true {dlc = 14} 15 (omega arith) refl (omega arith)

len_to_dlc-wraps_example : (len_to_dlc 260 false ≡ ok 4) × (dlc_to_len 4 false < 260)
len_to_dlc-wraps_example = len_to_dlc-wraps 260 false (omega arith) (omega arith)

abbrev id : Identifier ids
id = standard (clamp 0x7ff 0x123)

abbrev wide_id : Identifier ids
wide_id = extended (clamp 0x1fff_ffff 0x12345)

build-too_much_data_example :
    (build 8 (record { id = id; frame_type = classic (remote 9); store_tx_event = none })
      ≡ too_much_data)
    ↔ ((8 < payload_len (classic (remote 9)))
        ⊎ (max_len (frame_of 8 (classic (remote 9))).fdf < (frame_of 8 (classic (remote 9))).len))
build-too_much_data_example = build-too_much_data 8 id (classic (remote 9)) none (omega arith)

as_tx_builder-build_bytes_example :
    (raw : RawMessage) × (build 8
        (record { id = id; frame_type = classic (bytes (1 ∷ 2 ∷ [])); store_tx_event = some 7 })
      ≡ ok raw)
    × (as_tx_builder {c = ids} raw
        ≡ record { id = id; frame_type = classic (bytes (1 ∷ 2 ∷ [])); store_tx_event = none })
    × (message_marker raw ≡ 7)
as_tx_builder-build_bytes_example =
    as_tx_builder-build_bytes 8 id (some 7) (omega arith) (1 ∷ 2 ∷ []) (omega arith) (omega arith)

as_tx_builder-build_remote_example :
    (raw : RawMessage) × (build 8
        (record { id = wide_id; frame_type = classic (remote 5); store_tx_event = some 200 })
      ≡ ok raw)
    × (as_tx_builder {c = ids} raw
        ≡ record { id = wide_id; frame_type = classic (remote 5); store_tx_event = none })
    × (message_marker raw ≡ 200)
as_tx_builder-build_remote_example =
    as_tx_builder-build_remote 8 wide_id (some 200) (omega arith) 5 (omega arith)

abbrev nine : List ℕ
nine = replicate 9 0xff

as_tx_builder-build_flexible_datarate_example :
    (raw : RawMessage) × (code : ℕ) × (build 64 (record {
      id = wide_id;
      frame_type = flexible_datarate nine true false;
      store_tx_event = none;
    })
      ≡ ok raw)
    × (len_to_dlc (length nine) true ≡ ok code)
    × (as_tx_builder {c = ids} raw ≡ record {
      id = wide_id;
      frame_type =
          flexible_datarate
            (nine ++ replicate (min (dlc_to_len code true) 64 - length nine) 0)
            true
            false;
      store_tx_event = none;
    })
    × (is_transmitter_error_passive raw ≡ false)
    × (message_marker raw ≡ 0)
as_tx_builder-build_flexible_datarate_example =
    as_tx_builder-build_flexible_datarate 64 wide_id none (omega arith) nine true false
      (omega arith) (omega arith)
