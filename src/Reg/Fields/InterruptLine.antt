-- ===== src/Reg/Fields/InterruptLine.antt =====
-- The accessors of the interrupt line selection: ILS
-- (mcan/src/reg/: ils.rs).
use mcan.Base.{[], ◌∷◌}
use mcan.Reg.Fields.Defs.{Readers, Writers, read_flag, write_flag}

abbrev pub ils_readers : Readers
ils_readers =
    ("rf0nl", read_flag 0)
    ∷ ("rf0wl", read_flag 1)
    ∷ ("rf0fl", read_flag 2)
    ∷ ("rf0ll", read_flag 3)
    ∷ ("rf1nl", read_flag 4)
    ∷ ("rf1wl", read_flag 5)
    ∷ ("rf1fl", read_flag 6)
    ∷ ("rf1ll", read_flag 7)
    ∷ ("hpml", read_flag 8)
    ∷ ("tcl", read_flag 9)
    ∷ ("tcfl", read_flag 10)
    ∷ ("tfel", read_flag 11)
    ∷ ("tefnl", read_flag 12)
    ∷ ("tefwl", read_flag 13)
    ∷ ("teffl", read_flag 14)
    ∷ ("tefll", read_flag 15)
    ∷ ("tswl", read_flag 16)
    ∷ ("mrafl", read_flag 17)
    ∷ ("tool", read_flag 18)
    ∷ ("drxl", read_flag 19)
    ∷ ("becl", read_flag 20)
    ∷ ("beul", read_flag 21)
    ∷ ("elol", read_flag 22)
    ∷ ("epl", read_flag 23)
    ∷ ("ewl", read_flag 24)
    ∷ ("bol", read_flag 25)
    ∷ ("wdil", read_flag 26)
    ∷ ("peal", read_flag 27)
    ∷ ("pedl", read_flag 28)
    ∷ ("aral", read_flag 29)
    ∷ []

abbrev pub ils_writers : Writers
ils_writers =
    ("rf0nl", write_flag 0)
    ∷ ("rf0wl", write_flag 1)
    ∷ ("rf0fl", write_flag 2)
    ∷ ("rf0ll", write_flag 3)
    ∷ ("rf1nl", write_flag 4)
    ∷ ("rf1wl", write_flag 5)
    ∷ ("rf1fl", write_flag 6)
    ∷ ("rf1ll", write_flag 7)
    ∷ ("hpml", write_flag 8)
    ∷ ("tcl", write_flag 9)
    ∷ ("tcfl", write_flag 10)
    ∷ ("tfel", write_flag 11)
    ∷ ("tefnl", write_flag 12)
    ∷ ("tefwl", write_flag 13)
    ∷ ("teffl", write_flag 14)
    ∷ ("tefll", write_flag 15)
    ∷ ("tswl", write_flag 16)
    ∷ ("mrafl", write_flag 17)
    ∷ ("tool", write_flag 18)
    ∷ ("drxl", write_flag 19)
    ∷ ("becl", write_flag 20)
    ∷ ("beul", write_flag 21)
    ∷ ("elol", write_flag 22)
    ∷ ("epl", write_flag 23)
    ∷ ("ewl", write_flag 24)
    ∷ ("bol", write_flag 25)
    ∷ ("wdil", write_flag 26)
    ∷ ("peal", write_flag 27)
    ∷ ("pedl", write_flag 28)
    ∷ ("aral", write_flag 29)
    ∷ []
