-- ===== src/Reg/DataField.antt =====
-- The data field sizes that RXESC and TXESC select: the enumerations F0DSSELECT_A, F1DSSELECT_A, RBDSSELECT_A
-- (mcan/src/reg/rxesc.rs) and TBDSSELECT_A (mcan/src/reg/txesc.rs), which are the same.
use mcan.Base.{ℕ, ◌==◌, if◌then◌else◌, Option, none, some}

pub data DataFieldSize : Type 0 where
  data8 data12 data16 data20 data24 data32 data48 data64 : DataFieldSize

-- `variant` of the field's reader; the missing case is `unreachable!`.
unfoldable pub variant : ℕ → Option DataFieldSize
variant bits =
    if bits == 0
    then some data8
    else if bits == 1
    then some data12
    else if bits == 2
    then some data16
    else if bits == 3
    then some data20
    else if bits == 4
    then some data24
    else if bits == 5
    then some data32
    else if bits == 6
    then some data48
    else if bits == 7
    then some data64
    else none

-- The number of bytes of the data field.
abbrev pub data_bytes : DataFieldSize → ℕ
data_bytes data8 = 8
data_bytes data12 = 12
data_bytes data16 = 16
data_bytes data20 = 20
data_bytes data24 = 24
data_bytes data32 = 32
data_bytes data48 = 48
data_bytes data64 = 64
