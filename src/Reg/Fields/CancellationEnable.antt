-- ===== src/Reg/Fields/CancellationEnable.antt =====
-- The accessors of the cancellation interrupt enables: TXBCIE
-- (mcan/src/reg/: txbcie.rs).
use mcan.Base.{[], ◌∷◌}
use mcan.Reg.Fields.Defs.{Readers, Writers, read_flag, write_flag}

abbrev pub txbcie_readers : Readers
txbcie_readers =
    ("cfie0", read_flag 0)
    ∷ ("cfie1", read_flag 1)
    ∷ ("cfie2", read_flag 2)
    ∷ ("cfie3", read_flag 3)
    ∷ ("cfie4", read_flag 4)
    ∷ ("cfie5", read_flag 5)
    ∷ ("cfie6", read_flag 6)
    ∷ ("cfie7", read_flag 7)
    ∷ ("cfie8", read_flag 8)
    ∷ ("cfie9", read_flag 9)
    ∷ ("cfie10", read_flag 10)
    ∷ ("cfie11", read_flag 11)
    ∷ ("cfie12", read_flag 12)
    ∷ ("cfie13", read_flag 13)
    ∷ ("cfie14", read_flag 14)
    ∷ ("cfie15", read_flag 15)
    ∷ ("cfie16", read_flag 16)
    ∷ ("cfie17", read_flag 17)
    ∷ ("cfie18", read_flag 18)
    ∷ ("cfie19", read_flag 19)
    ∷ ("cfie20", read_flag 20)
    ∷ ("cfie21", read_flag 21)
    ∷ ("cfie22", read_flag 22)
    ∷ ("cfie23", read_flag 23)
    ∷ ("cfie24", read_flag 24)
    ∷ ("cfie25", read_flag 25)
    ∷ ("cfie26", read_flag 26)
    ∷ ("cfie27", read_flag 27)
    ∷ ("cfie28", read_flag 28)
    ∷ ("cfie29", read_flag 29)
    ∷ ("cfie30", read_flag 30)
    ∷ ("cfie31", read_flag 31)
    ∷ []

abbrev pub txbcie_writers : Writers
txbcie_writers =
    ("cfie0", write_flag 0)
    ∷ ("cfie1", write_flag 1)
    ∷ ("cfie2", write_flag 2)
    ∷ ("cfie3", write_flag 3)
    ∷ ("cfie4", write_flag 4)
    ∷ ("cfie5", write_flag 5)
    ∷ ("cfie6", write_flag 6)
    ∷ ("cfie7", write_flag 7)
    ∷ ("cfie8", write_flag 8)
    ∷ ("cfie9", write_flag 9)
    ∷ ("cfie10", write_flag 10)
    ∷ ("cfie11", write_flag 11)
    ∷ ("cfie12", write_flag 12)
    ∷ ("cfie13", write_flag 13)
    ∷ ("cfie14", write_flag 14)
    ∷ ("cfie15", write_flag 15)
    ∷ ("cfie16", write_flag 16)
    ∷ ("cfie17", write_flag 17)
    ∷ ("cfie18", write_flag 18)
    ∷ ("cfie19", write_flag 19)
    ∷ ("cfie20", write_flag 20)
    ∷ ("cfie21", write_flag 21)
    ∷ ("cfie22", write_flag 22)
    ∷ ("cfie23", write_flag 23)
    ∷ ("cfie24", write_flag 24)
    ∷ ("cfie25", write_flag 25)
    ∷ ("cfie26", write_flag 26)
    ∷ ("cfie27", write_flag 27)
    ∷ ("cfie28", write_flag 28)
    ∷ ("cfie29", write_flag 29)
    ∷ ("cfie30", write_flag 30)
    ∷ ("cfie31", write_flag 31)
    ∷ []
