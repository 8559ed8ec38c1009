-- ===== src/Reg/Fields/InterruptFlags.antt =====
-- The accessors of the interrupt flags: IR
-- (mcan/src/reg/: ir.rs).
use mcan.Base.{[], ◌∷◌}
use mcan.Reg.Fields.Defs.{Readers, Writers, read_flag, write_flag}

abbrev pub ir_readers : Readers
ir_readers =
    ("rf0n", read_flag 0)
    ∷ ("rf0w", read_flag 1)
    ∷ ("rf0f", read_flag 2)
    ∷ ("rf0l", read_flag 3)
    ∷ ("rf1n", read_flag 4)
    ∷ ("rf1w", read_flag 5)
    ∷ ("rf1f", read_flag 6)
    ∷ ("rf1l", read_flag 7)
    ∷ ("hpm", read_flag 8)
    ∷ ("tc", read_flag 9)
    ∷ ("tcf", read_flag 10)
    ∷ ("tfe", read_flag 11)
    ∷ ("tefn", read_flag 12)
    ∷ ("tefw", read_flag 13)
    ∷ ("teff", read_flag 14)
    ∷ ("tefl", read_flag 15)
    ∷ ("tsw", read_flag 16)
    ∷ ("mraf", read_flag 17)
    ∷ ("too", read_flag 18)
    ∷ ("drx", read_flag 19)
    ∷ ("bec", read_flag 20)
    ∷ ("beu", read_flag 21)
    ∷ ("elo", read_flag 22)
    ∷ ("ep", read_flag 23)
    ∷ ("ew", read_flag 24)
    ∷ ("bo", read_flag 25)
    ∷ ("wdi", read_flag 26)
    ∷ ("pea", read_flag 27)
    ∷ ("ped", read_flag 28)
    ∷ ("ara", read_flag 29)
    ∷ []

abbrev pub ir_writers : Writers
ir_writers =
    ("rf0n", write_flag 0)
    ∷ ("rf0w", write_flag 1)
    ∷ ("rf0f", write_flag 2)
    ∷ ("rf0l", write_flag 3)
    ∷ ("rf1n", write_flag 4)
    ∷ ("rf1w", write_flag 5)
    ∷ ("rf1f", write_flag 6)
    ∷ ("rf1l", write_flag 7)
    ∷ ("hpm", write_flag 8)
    ∷ ("tc", write_flag 9)
    ∷ ("tcf", write_flag 10)
    ∷ ("tfe", write_flag 11)
    ∷ ("tefn", write_flag 12)
    ∷ ("tefw", write_flag 13)
    ∷ ("teff", write_flag 14)
    ∷ ("tefl", write_flag 15)
    ∷ ("tsw", write_flag 16)
    ∷ ("mraf", write_flag 17)
    ∷ ("too", write_flag 18)
    ∷ ("drx", write_flag 19)
    ∷ ("bec", write_flag 20)
    ∷ ("beu", write_flag 21)
    ∷ ("elo", write_flag 22)
    ∷ ("ep", write_flag 23)
    ∷ ("ew", write_flag 24)
    ∷ ("bo", write_flag 25)
    ∷ ("wdi", write_flag 26)
    ∷ ("pea", write_flag 27)
    ∷ ("ped", write_flag 28)
    ∷ ("ara", write_flag 29)
    ∷ []
