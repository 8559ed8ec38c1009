-- ===== src/Reg/Fields/CompletionEnable.antt =====
-- The accessors of the transmission interrupt enables: TXBTIE
-- (mcan/src/reg/: txbtie.rs).
use mcan.Base.{[], ◌∷◌}
use mcan.Reg.Fields.Defs.{Readers, Writers, read_flag, write_flag}

abbrev pub txbtie_readers : Readers
txbtie_readers =
    ("tie0", read_flag 0)
    ∷ ("tie1", read_flag 1)
    ∷ ("tie2", read_flag 2)
    ∷ ("tie3", read_flag 3)
    ∷ ("tie4", read_flag 4)
    ∷ ("tie5", read_flag 5)
    ∷ ("tie6", read_flag 6)
    ∷ ("tie7", read_flag 7)
    ∷ ("tie8", read_flag 8)
    ∷ ("tie9", read_flag 9)
    ∷ ("tie10", read_flag 10)
    ∷ ("tie11", read_flag 11)
    ∷ ("tie12", read_flag 12)
    ∷ ("tie13", read_flag 13)
    ∷ ("tie14", read_flag 14)
    ∷ ("tie15", read_flag 15)
    ∷ ("tie16", read_flag 16)
    ∷ ("tie17", read_flag 17)
    ∷ ("tie18", read_flag 18)
    ∷ ("tie19", read_flag 19)
    ∷ ("tie20", read_flag 20)
    ∷ ("tie21", read_flag 21)
    ∷ ("tie22", read_flag 22)
    ∷ ("tie23", read_flag 23)
    ∷ ("tie24", read_flag 24)
    ∷ ("tie25", read_flag 25)
    ∷ ("tie26", read_flag 26)
    ∷ ("tie27", read_flag 27)
    ∷ ("tie28", read_flag 28)
    ∷ ("tie29", read_flag 29)
    ∷ ("tie30", read_flag 30)
    ∷ ("tie31", read_flag 31)
    ∷ []

abbrev pub txbtie_writers : Writers
txbtie_writers =
    ("tie0", write_flag 0)
    ∷ ("tie1", write_flag 1)
    ∷ ("tie2", write_flag 2)
    ∷ ("tie3", write_flag 3)
    ∷ ("tie4", write_flag 4)
    ∷ ("tie5", write_flag 5)
    ∷ ("tie6", write_flag 6)
    ∷ ("tie7", write_flag 7)
    ∷ ("tie8", write_flag 8)
    ∷ ("tie9", write_flag 9)
    ∷ ("tie10", write_flag 10)
    ∷ ("tie11", write_flag 11)
    ∷ ("tie12", write_flag 12)
    ∷ ("tie13", write_flag 13)
    ∷ ("tie14", write_flag 14)
    ∷ ("tie15", write_flag 15)
    ∷ ("tie16", write_flag 16)
    ∷ ("tie17", write_flag 17)
    ∷ ("tie18", write_flag 18)
    ∷ ("tie19", write_flag 19)
    ∷ ("tie20", write_flag 20)
    ∷ ("tie21", write_flag 21)
    ∷ ("tie22", write_flag 22)
    ∷ ("tie23", write_flag 23)
    ∷ ("tie24", write_flag 24)
    ∷ ("tie25", write_flag 25)
    ∷ ("tie26", write_flag 26)
    ∷ ("tie27", write_flag 27)
    ∷ ("tie28", write_flag 28)
    ∷ ("tie29", write_flag 29)
    ∷ ("tie30", write_flag 30)
    ∷ ("tie31", write_flag 31)
    ∷ []
