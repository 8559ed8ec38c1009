-- ===== src/Message/Dlc.antt =====
-- Data length codes: `len_to_dlc` and `dlc_to_len` (mcan/src/message/mod.rs).
pub mod Laws
use mcan.Base.{ℕ, Bool, true, false, leb, ◌==◌, if◌then◌else◌}
use mcan.Bits.{u8}

-- `Result<u8, TooMuchData>`, and the results of the calls that pass this error on.
pub data Result (A : Type 0) : Type 0 where
  ok : A → Result A
  too_much_data : Result A

-- The argument is a `usize`; the code matches on `len as u8`.
unfoldable pub len_to_dlc : ℕ → Bool → Result ℕ
len_to_dlc len true =
    if leb (u8 len) 8
    then ok (u8 len)
    else if leb (u8 len) 12
    then ok 9
    else if leb (u8 len) 16
    then ok 10
    else if leb (u8 len) 20
    then ok 11
    else if leb (u8 len) 24
    then ok 12
    else if leb (u8 len) 32
    then ok 13
    else if leb (u8 len) 48
    then ok 14
    else if leb (u8 len) 64
    then ok 15
    else too_much_data
len_to_dlc len false = if leb (u8 len) 8 then ok (u8 len) else too_much_data

unfoldable pub dlc_to_len : ℕ → Bool → ℕ
dlc_to_len dlc true =
    if leb dlc 8
    then dlc
    else if dlc == 9
    then 12
    else if dlc == 10
    then 16
    else if dlc == 11
    then 20
    else if dlc == 12
    then 24
    else if dlc == 13
    then 32
    else if dlc == 14
    then 48
    else 64
dlc_to_len dlc false = if leb dlc 8 then dlc else 8
