-- ===== src/Reg/Fields/CancelRequest.antt =====
-- The accessors of the cancellation requests: TXBCR
-- (mcan/src/reg/: txbcr.rs).
use mcan.Base.{[], ◌∷◌}
use mcan.Reg.Fields.Defs.{Readers, Writers, read_flag, write_flag}

abbrev pub txbcr_readers : Readers
txbcr_readers =
    ("cr0", read_flag 0)
    ∷ ("cr1", read_flag 1)
    ∷ ("cr2", read_flag 2)
    ∷ ("cr3", read_flag 3)
    ∷ ("cr4", read_flag 4)
    ∷ ("cr5", read_flag 5)
    ∷ ("cr6", read_flag 6)
    ∷ ("cr7", read_flag 7)
    ∷ ("cr8", read_flag 8)
    ∷ ("cr9", read_flag 9)
    ∷ ("cr10", read_flag 10)
    ∷ ("cr11", read_flag 11)
    ∷ ("cr12", read_flag 12)
    ∷ ("cr13", read_flag 13)
    ∷ ("cr14", read_flag 14)
    ∷ ("cr15", read_flag 15)
    ∷ ("cr16", read_flag 16)
    ∷ ("cr17", read_flag 17)
    ∷ ("cr18", read_flag 18)
    ∷ ("cr19", read_flag 19)
    ∷ ("cr20", read_flag 20)
    ∷ ("cr21", read_flag 21)
    ∷ ("cr22", read_flag 22)
    ∷ ("cr23", read_flag 23)
    ∷ ("cr24", read_flag 24)
    ∷ ("cr25", read_flag 25)
    ∷ ("cr26", read_flag 26)
    ∷ ("cr27", read_flag 27)
    ∷ ("cr28", read_flag 28)
    ∷ ("cr29", read_flag 29)
    ∷ ("cr30", read_flag 30)
    ∷ ("cr31", read_flag 31)
    ∷ []

abbrev pub txbcr_writers : Writers
txbcr_writers =
    ("cr0", write_flag 0)
    ∷ ("cr1", write_flag 1)
    ∷ ("cr2", write_flag 2)
    ∷ ("cr3", write_flag 3)
    ∷ ("cr4", write_flag 4)
    ∷ ("cr5", write_flag 5)
    ∷ ("cr6", write_flag 6)
    ∷ ("cr7", write_flag 7)
    ∷ ("cr8", write_flag 8)
    ∷ ("cr9", write_flag 9)
    ∷ ("cr10", write_flag 10)
    ∷ ("cr11", write_flag 11)
    ∷ ("cr12", write_flag 12)
    ∷ ("cr13", write_flag 13)
    ∷ ("cr14", write_flag 14)
    ∷ ("cr15", write_flag 15)
    ∷ ("cr16", write_flag 16)
    ∷ ("cr17", write_flag 17)
    ∷ ("cr18", write_flag 18)
    ∷ ("cr19", write_flag 19)
    ∷ ("cr20", write_flag 20)
    ∷ ("cr21", write_flag 21)
    ∷ ("cr22", write_flag 22)
    ∷ ("cr23", write_flag 23)
    ∷ ("cr24", write_flag 24)
    ∷ ("cr25", write_flag 25)
    ∷ ("cr26", write_flag 26)
    ∷ ("cr27", write_flag 27)
    ∷ ("cr28", write_flag 28)
    ∷ ("cr29", write_flag 29)
    ∷ ("cr30", write_flag 30)
    ∷ ("cr31", write_flag 31)
    ∷ []
