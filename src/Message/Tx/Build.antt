-- ===== src/Message/Tx/Build.antt =====
-- When `build` succeeds (mcan/src/message/tx.rs).
use mcan.Base.{
  ℕ, ◌-◌, ◌≤◌, ◌<◌, ◌≡◌, ◌↔◌, ◌⊎◌, inl, inr, refl, Bool, true, false, ◌++◌, length, replicate,
  Option, arith, dec_lt, if◌then◌else◌,
}
use mcan.Message.Dlc.{Result, ok, too_much_data, len_to_dlc, dlc_to_len}
use mcan.Message.Dlc.Laws.{max_len, len_to_dlc-fails, len_to_dlc-smallest}
use mcan.Message.Ids.{EmbeddedCan, Identifier}
use mcan.Message.Tx.{
  bytes, remote, FrameType, classic, flexible_datarate, MessageBuilder, Frame, frame, build,
}
use mcan.Message.Tx.Readers.{built}

-- The frame that each frame type with room for its payload gives.
abbrev pub frame_of : ℕ → FrameType → Frame
frame_of n (classic (bytes d)) = record {
  fdf = false;
  brs = false;
  esi = false;
  rtr = false;
  len = length d;
  contents = d ++ replicate (n - length d) 0;
}
frame_of n (classic (remote len)) = record {
  fdf = false;
  brs = false;
  esi = false;
  rtr = true;
  len = len;
  contents = replicate n 0;
}
frame_of n (flexible_datarate d brs esi) = record {
  fdf = true;
  brs = brs;
  esi = esi;
  rtr = false;
  len = length d;
  contents = d ++ replicate (n - length d) 0;
}

-- The length of the payload that is to be copied.
abbrev pub payload_len : FrameType → ℕ
payload_len (classic (bytes d)) = length d
payload_len (classic (remote len)) = 0
payload_len (flexible_datarate d brs esi) = length d

frame-ok : (n : ℕ) (ty : FrameType) → payload_len ty ≤ n → frame n ty ≡ ok (frame_of n ty)
unfolding frame
frame-ok n (classic (bytes d)) h = ground arith
frame-ok n (classic (remote len)) h = refl
frame-ok n (flexible_datarate d brs esi) h = ground arith

frame-fails : (n : ℕ) (ty : FrameType) → n < payload_len ty → frame n ty ≡ too_much_data
unfolding frame
frame-fails n (classic (bytes d)) h = ground arith
frame-fails n (classic (remote len)) h = absurd (omega arith)
frame-fails n (flexible_datarate d brs esi) h = ground arith

-- A code is found for every length that a data field can have.
pub code_for :
    (len : ℕ) (fd_format : Bool)
    → len ≤ max_len fd_format
    → (code : ℕ) × (len_to_dlc len fd_format ≡ ok code)
      × (len ≤ dlc_to_len code fd_format)
      × (code ≤ 15)
unfolding dlc_to_len
code_for len fd_format h = pick (len_to_dlc len fd_format) refl
  where
    pick :
        (r : Result ℕ)
        → len_to_dlc len fd_format ≡ r
        → (code : ℕ) × (len_to_dlc len fd_format ≡ ok code)
          × (len ≤ dlc_to_len code fd_format)
          × (code ≤ 15)
    pick (ok code) e =
        let s =
          len_to_dlc-smallest len fd_format {dlc = code} (if fd_format then 15 else 8)
            (ground arith) e (ground arith) in
        (code, e, s.0, s.1)
    pick too_much_data e =
        absurd (ground (arith, (len_to_dlc-fails len fd_format (ground arith)).0 e))

module _ {c : EmbeddedCan} (n : ℕ) (i : Identifier c) (ty : FrameType) (event : Option ℕ) where
  abbrev builder : MessageBuilder c
  builder = record { id = i; frame_type = ty; store_tx_event = event }

  pub build-ok :
      (code : ℕ)
      → payload_len ty ≤ n
      → len_to_dlc (frame_of n ty).len (frame_of n ty).fdf ≡ ok code
      → build n builder ≡ ok (built i code (frame_of n ty) event)
  unfolding build
  build-ok code h e = rw (frame-ok n ty h, e)

  -- For a frame whose length is below 256, `build` fails exactly if the payload is longer than the `n` bytes of the
  -- message, or the length exceeds what the format of the frame allows.
  pub build-too_much_data :
      (frame_of n ty).len < 256
      → (build n builder ≡ too_much_data)
        ↔ ((n < payload_len ty) ⊎ (max_len (frame_of n ty).fdf < (frame_of n ty).len))
  unfolding build
  build-too_much_data small = elim (dec_lt n (payload_len ty)) [
    | yes p ↦ (λ _. inl p, λ _. rw (frame-fails n ty p))
    | no p ↦ elim (dec_lt (max_len f.fdf) f.len) [
      | yes q ↦ (
        λ _. inr q,
        λ _. rw (frame-ok n ty (omega arith), (len_to_dlc-fails f.len f.fdf small).1 q),
      )
      | no q ↦
          let r = code_for f.len f.fdf (omega arith) in
          let e = build-ok r.0 (omega arith) r.1 in (λ h. cc, λ h. absurd (omega arith))
    ]
  ]
    where
      f : Frame
      f = frame_of n ty
