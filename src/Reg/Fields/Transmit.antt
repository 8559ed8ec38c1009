-- ===== src/Reg/Fields/Transmit.antt =====
-- The accessors of the configuration of the transmit buffers and the event FIFO
-- (mcan/src/reg/: txbc.rs, txfqs.rs, txesc.rs, txefc.rs, txefs.rs, txefa.rs).
use mcan.Base.{[], ◌∷◌}
use mcan.Reg.Fields.Defs.{Readers, Writers, read_field, read_flag, write_field, write_flag}

abbrev pub txbc_readers : Readers
txbc_readers =
    ("tbsa", read_field 0 0xffff)
    ∷ ("ndtb", read_field 16 0x3f)
    ∷ ("tfqs", read_field 24 0x3f)
    ∷ ("tfqm", read_flag 30)
    ∷ []

abbrev pub txbc_writers : Writers
txbc_writers =
    ("tbsa", write_field 16 0)
    ∷ ("ndtb", write_field 6 16)
    ∷ ("tfqs", write_field 6 24)
    ∷ ("tfqm", write_flag 30)
    ∷ []

abbrev pub txfqs_readers : Readers
txfqs_readers =
    ("tffl", read_field 0 0x3f)
    ∷ ("tfgi", read_field 8 0x1f)
    ∷ ("tfqpi", read_field 16 0x1f)
    ∷ ("tfqf", read_flag 21)
    ∷ []

abbrev pub txesc_readers : Readers
txesc_readers = ("tbds", read_field 0 7) ∷ []

abbrev pub txesc_writers : Writers
txesc_writers = ("tbds", write_field 3 0) ∷ []

abbrev pub txefc_readers : Readers
txefc_readers =
    ("efsa", read_field 0 0xffff) ∷ ("efs", read_field 16 0x3f) ∷ ("efwm", read_field 24 0x3f) ∷ []

abbrev pub txefc_writers : Writers
txefc_writers =
    ("efsa", write_field 16 0) ∷ ("efs", write_field 6 16) ∷ ("efwm", write_field 6 24) ∷ []

abbrev pub txefs_readers : Readers
txefs_readers =
    ("effl", read_field 0 0x3f)
    ∷ ("efgi", read_field 8 0x1f)
    ∷ ("efpi", read_field 16 0x1f)
    ∷ ("eff", read_flag 24)
    ∷ ("tefl", read_flag 25)
    ∷ []

abbrev pub txefa_readers : Readers
txefa_readers = ("efai", read_field 0 0x1f) ∷ []

abbrev pub txefa_writers : Writers
txefa_writers = ("efai", write_field 5 0) ∷ []
