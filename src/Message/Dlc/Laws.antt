-- ===== src/Message/Dlc/Laws.antt =====
-- `len_to_dlc` finds the smallest code that is large enough, up to 255 bytes.
use mcan.Base.{ℕ, ◌%◌, ◌≤◌, ◌<◌, ◌≡◌, ◌↔◌, Bool, true, false, arith, if◌then◌else◌}
use mcan.Message.Dlc.{ok, too_much_data, len_to_dlc, dlc_to_len}

-- The longest data field of a frame.
abbrev pub max_len : Bool → ℕ
max_len fd_format = if fd_format then 64 else 8

-- For a length below 256, a code that is found stands for at least `len` bytes, it is at most 15, and any code
-- for at least `len` bytes is at least as large.
pub len_to_dlc-smallest :
    (len : ℕ) (fd_format : Bool) {dlc : ℕ} (other : ℕ)
    → len < 256
    → len_to_dlc len fd_format ≡ ok dlc
    → len ≤ dlc_to_len other fd_format
    → (len ≤ dlc_to_len dlc fd_format) × (dlc ≤ 15) × (dlc ≤ other)
unfolding len_to_dlc dlc_to_len
len_to_dlc-smallest len true other small found enough = ground arith
len_to_dlc-smallest len false other small found enough = ground arith

-- For a length below 256, a code is found exactly if a data field can be that long.
pub len_to_dlc-fails :
    (len : ℕ) (fd_format : Bool)
    → len < 256
    → (len_to_dlc len fd_format ≡ too_much_data) ↔ (max_len fd_format < len)
unfolding len_to_dlc
len_to_dlc-fails len true small = ground arith
len_to_dlc-fails len false small = ground arith

-- The conversions are inverse on the codes in use: 0 to 15 for CAN FD, 0 to 8 for Classic CAN.
pub len_to_dlc-dlc_to_len :
    (dlc : ℕ) (fd_format : Bool)
    → dlc ≤ (if fd_format then 15 else 8)
    → len_to_dlc (dlc_to_len dlc fd_format) fd_format ≡ ok dlc
unfolding len_to_dlc dlc_to_len
len_to_dlc-dlc_to_len dlc true small = ground arith
len_to_dlc-dlc_to_len dlc false small = ground arith

-- A length of 256 or more is cut to its last eight bits first: where these are at most 8, a code is
-- found that stands for fewer bytes than were asked for.
pub len_to_dlc-wraps :
    (len : ℕ) (fd_format : Bool)
    → 256 ≤ len
    → len % 256 ≤ 8
    → (len_to_dlc len fd_format ≡ ok (len % 256)) × (dlc_to_len (len % 256) fd_format < len)
unfolding len_to_dlc dlc_to_len
len_to_dlc-wraps len true large wraps = ground arith
len_to_dlc-wraps len false large wraps = ground arith
