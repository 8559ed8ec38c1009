-- ===== src/Message/Tx/RoundTrip.antt =====
-- What is built is read back: `as_tx_builder` undoes `build` (mcan/src/message/).
use mcan.Base.{
  ℕ, ◌-◌, ◌≤◌, ◌<◌, ◌≡◌, refl, Bool, true, false, List, [], ◌∷◌, ◌++◌, length, replicate, take,
  Option, none, arith, min, length-append, length-replicate, zero, suc, ap, leb, ◌∙◌,
}
use mcan.Message.Dlc.{ok, len_to_dlc, dlc_to_len}
use mcan.Message.Ids.{EmbeddedCan, Identifier}
use mcan.Message.Raw.{
  RawMessage, is_transmitter_error_passive, decoded_dlc, payload, message_marker, get_to,
}
use mcan.Message.Tx.{
  bytes, remote, classic, flexible_datarate, Frame, build, as_tx_builder, marker_or_zero,
}
use mcan.Message.Tx.Build.{frame_of, build-ok, code_for}
use mathlib.Core.List.{append-nil}
use mcan.Message.Tx.Readers.{
  built, is_remote_frame-built, is_transmitter_error_passive-built, fd_format-built,
  bit_rate_switching-built, dlc-built, message_marker-built, id-built,
}

take-append :
    (k : ℕ) (d zs : List ℕ) → length d ≤ k → take k (d ++ zs) ≡ d ++ take (k - length d) zs
take-append k [] zs h = let e : k - 0 ≡ k = omega arith in rw e
take-append zero (x ∷ d) zs h = absurd (omega arith)
take-append (suc k) (x ∷ d) zs h =
    let e : suc k - suc (length d) ≡ k - length d = omega arith in
    rw (take-append k d zs (omega arith), e)

take-replicate : (k n : ℕ) → k ≤ n → take {A = ℕ} k (replicate n 0) ≡ replicate k 0
take-replicate zero n h = refl
take-replicate (suc k) zero h = absurd (omega arith)
take-replicate (suc k) (suc n) h = ap (λ (l : List ℕ). 0 ∷ l) (take-replicate k n (omega arith))

-- The data of a message that was filled up with zeros, cut to `k` bytes.
get_to_filled :
    (k n : ℕ) (d : List ℕ)
    → length d ≤ k
    → k ≤ n
    → get_to k (d ++ replicate (n - length d) 0) ≡ d ++ replicate (k - length d) 0
get_to_filled k n d h h' = rw filled (
    rw (
      take-append k d (replicate (n - length d) 0) h,
      take-replicate (k - length d) (n - length d) (omega arith),
    ))
  where
    filled : leb k (length (d ++ replicate (n - length d) 0)) ≡ true
    filled = ground (
      arith,
      length-append d (replicate (n - length d) 0),
      length-replicate {A = ℕ} (n - length d) 0,
    )

module _ {c : EmbeddedCan} (i : Identifier c) (code : ℕ) (f : Frame) (event : Option ℕ)
    (small : code ≤ 15) (fits : marker_or_zero event < 256) where
  payload-built :
      (n : ℕ) (d : List ℕ)
      → f.rtr ≡ false
      → f.contents ≡ d ++ replicate (n - length d) 0
      → length d ≤ n
      → length d ≤ dlc_to_len code f.fdf
      → payload (built i code f event) ≡ d ++ replicate (min (dlc_to_len code f.fdf) n - length d) 0
  unfolding payload decoded_dlc
  payload-built n d data_frame filled h h' =
      rw
        (
          is_remote_frame-built i code f event small fits ∙ data_frame,
          dlc-built i code f event small fits,
          fd_format-built i code f event small fits,
          filled,
          same_min,
        )
        (get_to_filled (min (dlc_to_len code f.fdf) n) n d (omega arith) (omega arith))
    where
      same_min :
          min (dlc_to_len code f.fdf) (length (d ++ replicate (n - length d) 0))
          ≡ min (dlc_to_len code f.fdf) n
      same_min = omega (
        arith,
        length-append d (replicate (n - length d) 0),
        length-replicate {A = ℕ} (n - length d) 0,
      )

min-cut : (len n : ℕ) → len ≤ n → min len n - len ≡ 0
min-cut len n h = omega arith

module _ {c : EmbeddedCan} (n : ℕ) (i : Identifier c) (event : Option ℕ)
    (fits : marker_or_zero event < 256) where
  -- A Classic CAN message with up to 8 bytes of data that fit the buffer is built, and converting it
  -- back gives the identifier and the data; its marker is the one asked for, or 0.
  pub as_tx_builder-build_bytes :
      (d : List ℕ)
      → length d ≤ 8
      → length d ≤ n
      → (raw : RawMessage) × (build n
            (record { id = i; frame_type = classic (bytes d); store_tx_event = event })
          ≡ ok raw)
        × (as_tx_builder {c = c} raw
            ≡ record { id = i; frame_type = classic (bytes d); store_tx_event = none })
        × (message_marker raw ≡ marker_or_zero event)
  as_tx_builder-build_bytes d short room = (
    built i (length d) f event,
    build-ok n i (classic (bytes d)) event (length d) room found,
    unfold as_tx_builder in
        rw (
          fd_format-built i (length d) f event (omega arith) fits,
          is_remote_frame-built i (length d) f event (omega arith) fits,
          id-built i (length d) f event (omega arith) fits,
          same,
        ),
    message_marker-built i (length d) f event (omega arith) fits,
  )
    where
      f : Frame
      f = frame_of n (classic (bytes d))

      found : len_to_dlc (length d) false ≡ ok (length d)
      found = unfold len_to_dlc in ground arith

      code_len : dlc_to_len (length d) false ≡ length d
      code_len = unfold dlc_to_len in ground arith

      same : payload (built i (length d) f event) ≡ d
      same =
          payload-built i (length d) f event (omega arith) fits n d refl refl room
            (omega (arith, code_len))
          ∙ rw (code_len, min-cut (length d) n room) (append-nil d)

  -- A remote frame that asks for up to 8 bytes, with a marker that is a `u8` or none, is built, and
  -- converting it back gives the identifier and the length; its marker is the one asked for, or 0.
  pub as_tx_builder-build_remote :
      (len : ℕ)
      → len ≤ 8
      → (raw : RawMessage) × (build n
            (record { id = i; frame_type = classic (remote len); store_tx_event = event })
          ≡ ok raw)
        × (as_tx_builder {c = c} raw
            ≡ record { id = i; frame_type = classic (remote len); store_tx_event = none })
        × (message_marker raw ≡ marker_or_zero event)
  as_tx_builder-build_remote len short = (
    built i len f event,
    build-ok n i (classic (remote len)) event len (omega arith) found,
    unfold as_tx_builder in
        rw (
          fd_format-built i len f event (omega arith) fits,
          is_remote_frame-built i len f event (omega arith) fits,
          id-built i len f event (omega arith) fits,
          dlc-built i len f event (omega arith) fits,
          code_len,
        ),
    message_marker-built i len f event (omega arith) fits,
  )
    where
      f : Frame
      f = frame_of n (classic (remote len))

      found : len_to_dlc len false ≡ ok len
      found = unfold len_to_dlc in ground arith

      code_len : dlc_to_len len false ≡ len
      code_len = unfold dlc_to_len in ground arith

  -- A CAN FD message whose payload fits a buffer of up to 64 bytes is built. Converting it back gives
  -- the identifier, the bit rate switching, and the payload filled up with zeros to the length that
  -- its code stands for, or to the end of the buffer. Its error state indicator and its marker are
  -- those asked for.
  pub as_tx_builder-build_flexible_datarate :
      (d : List ℕ) (brs esi : Bool)
      → length d ≤ n
      → n ≤ 64
      → (raw : RawMessage) × (code : ℕ) × (build n
            (record { id = i; frame_type = flexible_datarate d brs esi; store_tx_event = event })
          ≡ ok raw)
        × (len_to_dlc (length d) true ≡ ok code)
        × (as_tx_builder {c = c} raw ≡ record {
          id = i;
          frame_type =
              flexible_datarate
                (d ++ replicate (min (dlc_to_len code true) n - length d) 0)
                brs
                false;
          store_tx_event = none;
        })
        × (is_transmitter_error_passive raw ≡ esi)
        × (message_marker raw ≡ marker_or_zero event)
  as_tx_builder-build_flexible_datarate d brs esi room small = (
    built i code f event,
    code,
    build-ok n i (flexible_datarate d brs esi) event code room found.1,
    found.1,
    unfold as_tx_builder in
        rw (
          fd_format-built i code f event low fits,
          id-built i code f event low fits,
          bit_rate_switching-built i code f event low fits,
          payload-built i code f event low fits n d refl refl room found.2,
        ),
    is_transmitter_error_passive-built i code f event low fits,
    message_marker-built i code f event low fits,
  )
    where
      f : Frame
      f = frame_of n (flexible_datarate d brs esi)

      found :
          (code : ℕ) × (len_to_dlc (length d) true ≡ ok code)
          × (length d ≤ dlc_to_len code true)
          × (code ≤ 15)
      found = code_for (length d) true (omega arith)

      code : ℕ
      code = found.0

      low : code ≤ 15
      low = found.3
