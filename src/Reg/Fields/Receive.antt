-- ===== src/Reg/Fields/Receive.antt =====
-- The accessors of the filters and the receive FIFOs
-- (mcan/src/reg/: gfc.rs, sidfc.rs, xidfc.rs, xidam.rs, hpms.rs, rxfc.rs, rxfs.rs, rxfa.rs, rxbc.rs, rxesc.rs).
use mcan.Base.{[], ◌∷◌}
use mcan.Reg.Fields.Defs.{Readers, Writers, read_field, read_flag, write_field, write_flag}

abbrev pub gfc_readers : Readers
gfc_readers =
    ("rrfe", read_flag 0)
    ∷ ("rrfs", read_flag 1)
    ∷ ("anfe", read_field 2 3)
    ∷ ("anfs", read_field 4 3)
    ∷ []

abbrev pub gfc_writers : Writers
gfc_writers =
    ("rrfe", write_flag 0)
    ∷ ("rrfs", write_flag 1)
    ∷ ("anfe", write_field 2 2)
    ∷ ("anfs", write_field 2 4)
    ∷ []

abbrev pub sidfc_readers : Readers
sidfc_readers = ("flssa", read_field 0 0xffff) ∷ ("lss", read_field 16 0xff) ∷ []

abbrev pub sidfc_writers : Writers
sidfc_writers = ("flssa", write_field 16 0) ∷ ("lss", write_field 8 16) ∷ []

abbrev pub xidfc_readers : Readers
xidfc_readers = ("flesa", read_field 0 0xffff) ∷ ("lse", read_field 16 0x7f) ∷ []

abbrev pub xidfc_writers : Writers
xidfc_writers = ("flesa", write_field 16 0) ∷ ("lse", write_field 7 16) ∷ []

abbrev pub xidam_readers : Readers
xidam_readers = ("eidm", read_field 0 0x1fff_ffff) ∷ []

abbrev pub xidam_writers : Writers
xidam_writers = ("eidm", write_field 29 0) ∷ []

abbrev pub hpms_readers : Readers
hpms_readers =
    ("bidx", read_field 0 0x3f)
    ∷ ("msi", read_field 6 3)
    ∷ ("fidx", read_field 8 0x7f)
    ∷ ("flst", read_flag 15)
    ∷ []

abbrev pub rxfc_readers : Readers
rxfc_readers =
    ("fsa", read_field 0 0xffff)
    ∷ ("fs", read_field 16 0x7f)
    ∷ ("fwm", read_field 24 0x7f)
    ∷ ("fom", read_flag 31)
    ∷ []

abbrev pub rxfc_writers : Writers
rxfc_writers =
    ("fsa", write_field 16 0)
    ∷ ("fs", write_field 7 16)
    ∷ ("fwm", write_field 7 24)
    ∷ ("fom", write_flag 31)
    ∷ []

abbrev pub rxfs_readers : Readers
rxfs_readers =
    ("ffl", read_field 0 0x7f)
    ∷ ("fgi", read_field 8 0x3f)
    ∷ ("fpi", read_field 16 0x3f)
    ∷ ("ff", read_flag 24)
    ∷ ("rfl", read_flag 25)
    ∷ []

abbrev pub rxfa_readers : Readers
rxfa_readers = ("fai", read_field 0 0x3f) ∷ []

abbrev pub rxfa_writers : Writers
rxfa_writers = ("fai", write_field 6 0) ∷ []

abbrev pub rxbc_readers : Readers
rxbc_readers = ("rbsa", read_field 0 0xffff) ∷ []

abbrev pub rxbc_writers : Writers
rxbc_writers = ("rbsa", write_field 16 0) ∷ []

abbrev pub rxesc_readers : Readers
rxesc_readers = ("f0ds", read_field 0 7) ∷ ("f1ds", read_field 4 7) ∷ ("rbds", read_field 8 7) ∷ []

abbrev pub rxesc_writers : Writers
rxesc_writers =
    ("f0ds", write_field 3 0) ∷ ("f1ds", write_field 3 4) ∷ ("rbds", write_field 3 8) ∷ []
