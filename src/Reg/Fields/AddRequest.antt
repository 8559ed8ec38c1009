-- ===== src/Reg/Fields/AddRequest.antt =====
-- The accessors of the transmit requests: TXBAR
-- (mcan/src/reg/: txbar.rs).
use mcan.Base.{[], ◌∷◌}
use mcan.Reg.Fields.Defs.{Readers, Writers, read_flag, write_flag}

abbrev pub txbar_readers : Readers
txbar_readers =
    ("ar0", read_flag 0)
    ∷ ("ar1", read_flag 1)
    ∷ ("ar2", read_flag 2)
    ∷ ("ar3", read_flag 3)
    ∷ ("ar4", read_flag 4)
    ∷ ("ar5", read_flag 5)
    ∷ ("ar6", read_flag 6)
    ∷ ("ar7", read_flag 7)
    ∷ ("ar8", read_flag 8)
    ∷ ("ar9", read_flag 9)
    ∷ ("ar10", read_flag 10)
    ∷ ("ar11", read_flag 11)
    ∷ ("ar12", read_flag 12)
    ∷ ("ar13", read_flag 13)
    ∷ ("ar14", read_flag 14)
    ∷ ("ar15", read_flag 15)
    ∷ ("ar16", read_flag 16)
    ∷ ("ar17", read_flag 17)
    ∷ ("ar18", read_flag 18)
    ∷ ("ar19", read_flag 19)
    ∷ ("ar20", read_flag 20)
    ∷ ("ar21", read_flag 21)
    ∷ ("ar22", read_flag 22)
    ∷ ("ar23", read_flag 23)
    ∷ ("ar24", read_flag 24)
    ∷ ("ar25", read_flag 25)
    ∷ ("ar26", read_flag 26)
    ∷ ("ar27", read_flag 27)
    ∷ ("ar28", read_flag 28)
    ∷ ("ar29", read_flag 29)
    ∷ ("ar30", read_flag 30)
    ∷ ("ar31", read_flag 31)
    ∷ []

abbrev pub txbar_writers : Writers
txbar_writers =
    ("ar0", write_flag 0)
    ∷ ("ar1", write_flag 1)
    ∷ ("ar2", write_flag 2)
    ∷ ("ar3", write_flag 3)
    ∷ ("ar4", write_flag 4)
    ∷ ("ar5", write_flag 5)
    ∷ ("ar6", write_flag 6)
    ∷ ("ar7", write_flag 7)
    ∷ ("ar8", write_flag 8)
    ∷ ("ar9", write_flag 9)
    ∷ ("ar10", write_flag 10)
    ∷ ("ar11", write_flag 11)
    ∷ ("ar12", write_flag 12)
    ∷ ("ar13", write_flag 13)
    ∷ ("ar14", write_flag 14)
    ∷ ("ar15", write_flag 15)
    ∷ ("ar16", write_flag 16)
    ∷ ("ar17", write_flag 17)
    ∷ ("ar18", write_flag 18)
    ∷ ("ar19", write_flag 19)
    ∷ ("ar20", write_flag 20)
    ∷ ("ar21", write_flag 21)
    ∷ ("ar22", write_flag 22)
    ∷ ("ar23", write_flag 23)
    ∷ ("ar24", write_flag 24)
    ∷ ("ar25", write_flag 25)
    ∷ ("ar26", write_flag 26)
    ∷ ("ar27", write_flag 27)
    ∷ ("ar28", write_flag 28)
    ∷ ("ar29", write_flag 29)
    ∷ ("ar30", write_flag 30)
    ∷ ("ar31", write_flag 31)
    ∷ []
