-- ===== src/Reg/Fields/NewData1.antt =====
-- The accessors of the new data flags: NDAT1
-- (mcan/src/reg/: ndat1.rs).
use mcan.Base.{[], ◌∷◌}
use mcan.Reg.Fields.Defs.{Readers, Writers, read_flag, write_flag}

abbrev pub ndat1_readers : Readers
ndat1_readers =
    ("nd0", read_flag 0)
    ∷ ("nd1", read_flag 1)
    ∷ ("nd2", read_flag 2)
    ∷ ("nd3", read_flag 3)
    ∷ ("nd4", read_flag 4)
    ∷ ("nd5", read_flag 5)
    ∷ ("nd6", read_flag 6)
    ∷ ("nd7", read_flag 7)
    ∷ ("nd8", read_flag 8)
    ∷ ("nd9", read_flag 9)
    ∷ ("nd10", read_flag 10)
    ∷ ("nd11", read_flag 11)
    ∷ ("nd12", read_flag 12)
    ∷ ("nd13", read_flag 13)
    ∷ ("nd14", read_flag 14)
    ∷ ("nd15", read_flag 15)
    ∷ ("nd16", read_flag 16)
    ∷ ("nd17", read_flag 17)
    ∷ ("nd18", read_flag 18)
    ∷ ("nd19", read_flag 19)
    ∷ ("nd20", read_flag 20)
    ∷ ("nd21", read_flag 21)
    ∷ ("nd22", read_flag 22)
    ∷ ("nd23", read_flag 23)
    ∷ ("nd24", read_flag 24)
    ∷ ("nd25", read_flag 25)
    ∷ ("nd26", read_flag 26)
    ∷ ("nd27", read_flag 27)
    ∷ ("nd28", read_flag 28)
    ∷ ("nd29", read_flag 29)
    ∷ ("nd30", read_flag 30)
    ∷ ("nd31", read_flag 31)
    ∷ []

abbrev pub ndat1_writers : Writers
ndat1_writers =
    ("nd0", write_flag 0)
    ∷ ("nd1", write_flag 1)
    ∷ ("nd2", write_flag 2)
    ∷ ("nd3", write_flag 3)
    ∷ ("nd4", write_flag 4)
    ∷ ("nd5", write_flag 5)
    ∷ ("nd6", write_flag 6)
    ∷ ("nd7", write_flag 7)
    ∷ ("nd8", write_flag 8)
    ∷ ("nd9", write_flag 9)
    ∷ ("nd10", write_flag 10)
    ∷ ("nd11", write_flag 11)
    ∷ ("nd12", write_flag 12)
    ∷ ("nd13", write_flag 13)
    ∷ ("nd14", write_flag 14)
    ∷ ("nd15", write_flag 15)
    ∷ ("nd16", write_flag 16)
    ∷ ("nd17", write_flag 17)
    ∷ ("nd18", write_flag 18)
    ∷ ("nd19", write_flag 19)
    ∷ ("nd20", write_flag 20)
    ∷ ("nd21", write_flag 21)
    ∷ ("nd22", write_flag 22)
    ∷ ("nd23", write_flag 23)
    ∷ ("nd24", write_flag 24)
    ∷ ("nd25", write_flag 25)
    ∷ ("nd26", write_flag 26)
    ∷ ("nd27", write_flag 27)
    ∷ ("nd28", write_flag 28)
    ∷ ("nd29", write_flag 29)
    ∷ ("nd30", write_flag 30)
    ∷ ("nd31", write_flag 31)
    ∷ []
