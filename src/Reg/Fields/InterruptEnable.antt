-- ===== src/Reg/Fields/InterruptEnable.antt =====
-- The accessors of the interrupt enables: IE
-- (mcan/src/reg/: ie.rs).
use mcan.Base.{[], ◌∷◌}
use mcan.Reg.Fields.Defs.{Readers, Writers, read_flag, write_flag}

abbrev pub ie_readers : Readers
ie_readers =
    ("rf0ne", read_flag 0)
    ∷ ("rf0we", read_flag 1)
    ∷ ("rf0fe", read_flag 2)
    ∷ ("rf0le", read_flag 3)
    ∷ ("rf1ne", read_flag 4)
    ∷ ("rf1we", read_flag 5)
    ∷ ("rf1fe", read_flag 6)
    ∷ ("rf1le", read_flag 7)
    ∷ ("hpme", read_flag 8)
    ∷ ("tce", read_flag 9)
    ∷ ("tcfe", read_flag 10)
    ∷ ("tfee", read_flag 11)
    ∷ ("tefne", read_flag 12)
    ∷ ("tefwe", read_flag 13)
    ∷ ("teffe", read_flag 14)
    ∷ ("tefle", read_flag 15)
    ∷ ("tswe", read_flag 16)
    ∷ ("mrafe", read_flag 17)
    ∷ ("tooe", read_flag 18)
    ∷ ("drxe", read_flag 19)
    ∷ ("bece", read_flag 20)
    ∷ ("beue", read_flag 21)
    ∷ ("eloe", read_flag 22)
    ∷ ("epe", read_flag 23)
    ∷ ("ewe", read_flag 24)
    ∷ ("boe", read_flag 25)
    ∷ ("wdie", read_flag 26)
    ∷ ("peae", read_flag 27)
    ∷ ("pede", read_flag 28)
    ∷ ("arae", read_flag 29)
    ∷ []

abbrev pub ie_writers : Writers
ie_writers =
    ("rf0ne", write_flag 0)
    ∷ ("rf0we", write_flag 1)
    ∷ ("rf0fe", write_flag 2)
    ∷ ("rf0le", write_flag 3)
    ∷ ("rf1ne", write_flag 4)
    ∷ ("rf1we", write_flag 5)
    ∷ ("rf1fe", write_flag 6)
    ∷ ("rf1le", write_flag 7)
    ∷ ("hpme", write_flag 8)
    ∷ ("tce", write_flag 9)
    ∷ ("tcfe", write_flag 10)
    ∷ ("tfee", write_flag 11)
    ∷ ("tefne", write_flag 12)
    ∷ ("tefwe", write_flag 13)
    ∷ ("teffe", write_flag 14)
    ∷ ("tefle", write_flag 15)
    ∷ ("tswe", write_flag 16)
    ∷ ("mrafe", write_flag 17)
    ∷ ("tooe", write_flag 18)
    ∷ ("drxe", write_flag 19)
    ∷ ("bece", write_flag 20)
    ∷ ("beue", write_flag 21)
    ∷ ("eloe", write_flag 22)
    ∷ ("epe", write_flag 23)
    ∷ ("ewe", write_flag 24)
    ∷ ("boe", write_flag 25)
    ∷ ("wdie", write_flag 26)
    ∷ ("peae", write_flag 27)
    ∷ ("pede", write_flag 28)
    ∷ ("arae", write_flag 29)
    ∷ []
