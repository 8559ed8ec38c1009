-- ===== src/Reg/Fields/NewData2.antt =====
-- The accessors of the new data flags: NDAT2
-- (mcan/src/reg/: ndat2.rs).
use mcan.Base.{[], ◌∷◌}
use mcan.Reg.Fields.Defs.{Readers, Writers, read_flag, write_flag}

abbrev pub ndat2_readers : Readers
ndat2_readers =
    ("nd32", read_flag 0)
    ∷ ("nd33", read_flag 1)
    ∷ ("nd34", read_flag 2)
    ∷ ("nd35", read_flag 3)
    ∷ ("nd36", read_flag 4)
    ∷ ("nd37", read_flag 5)
    ∷ ("nd38", read_flag 6)
    ∷ ("nd39", read_flag 7)
    ∷ ("nd40", read_flag 8)
    ∷ ("nd41", read_flag 9)
    ∷ ("nd42", read_flag 10)
    ∷ ("nd43", read_flag 11)
    ∷ ("nd44", read_flag 12)
    ∷ ("nd45", read_flag 13)
    ∷ ("nd46", read_flag 14)
    ∷ ("nd47", read_flag 15)
    ∷ ("nd48", read_flag 16)
    ∷ ("nd49", read_flag 17)
    ∷ ("nd50", read_flag 18)
    ∷ ("nd51", read_flag 19)
    ∷ ("nd52", read_flag 20)
    ∷ ("nd53", read_flag 21)
    ∷ ("nd54", read_flag 22)
    ∷ ("nd55", read_flag 23)
    ∷ ("nd56", read_flag 24)
    ∷ ("nd57", read_flag 25)
    ∷ ("nd58", read_flag 26)
    ∷ ("nd59", read_flag 27)
    ∷ ("nd60", read_flag 28)
    ∷ ("nd61", read_flag 29)
    ∷ ("nd62", read_flag 30)
    ∷ ("nd63", read_flag 31)
    ∷ []

abbrev pub ndat2_writers : Writers
ndat2_writers =
    ("nd32", write_flag 0)
    ∷ ("nd33", write_flag 1)
    ∷ ("nd34", write_flag 2)
    ∷ ("nd35", write_flag 3)
    ∷ ("nd36", write_flag 4)
    ∷ ("nd37", write_flag 5)
    ∷ ("nd38", write_flag 6)
    ∷ ("nd39", write_flag 7)
    ∷ ("nd40", write_flag 8)
    ∷ ("nd41", write_flag 9)
    ∷ ("nd42", write_flag 10)
    ∷ ("nd43", write_flag 11)
    ∷ ("nd44", write_flag 12)
    ∷ ("nd45", write_flag 13)
    ∷ ("nd46", write_flag 14)
    ∷ ("nd47", write_flag 15)
    ∷ ("nd48", write_flag 16)
    ∷ ("nd49", write_flag 17)
    ∷ ("nd50", write_flag 18)
    ∷ ("nd51", write_flag 19)
    ∷ ("nd52", write_flag 20)
    ∷ ("nd53", write_flag 21)
    ∷ ("nd54", write_flag 22)
    ∷ ("nd55", write_flag 23)
    ∷ ("nd56", write_flag 24)
    ∷ ("nd57", write_flag 25)
    ∷ ("nd58", write_flag 26)
    ∷ ("nd59", write_flag 27)
    ∷ ("nd60", write_flag 28)
    ∷ ("nd61", write_flag 29)
    ∷ ("nd62", write_flag 30)
    ∷ ("nd63", write_flag 31)
    ∷ []
