-- ===== src/Reg/Fields/Core.antt =====
-- The accessors of the core: CREL to TDCR, and ILE
-- (mcan/src/reg/: crel.rs, endn.rs, dbtp.rs, test.rs, rwd.rs, cccr.rs, nbtp.rs, tscc.rs, tscv.rs, tocc.rs, tocv.rs, ecr.rs, psr.rs, tdcr.rs, ile.rs).
use mcan.Base.{[], ◌∷◌}
use mcan.Reg.Fields.Defs.{Readers, Writers, read_field, read_flag, write_field, write_flag}

abbrev pub crel_readers : Readers
crel_readers =
    ("substep", read_field 20 0x0f)
    ∷ ("step", read_field 24 0x0f)
    ∷ ("rel", read_field 28 0x0f)
    ∷ []

abbrev pub endn_readers : Readers
endn_readers = ("etv", read_field 0 0xffff_ffff) ∷ []

abbrev pub dbtp_readers : Readers
dbtp_readers =
    ("dsjw", read_field 0 0x0f)
    ∷ ("dtseg2", read_field 4 0x0f)
    ∷ ("dtseg1", read_field 8 0x1f)
    ∷ ("dbrp", read_field 16 0x1f)
    ∷ ("tdc", read_flag 23)
    ∷ []

abbrev pub dbtp_writers : Writers
dbtp_writers =
    ("dsjw", write_field 4 0)
    ∷ ("dtseg2", write_field 4 4)
    ∷ ("dtseg1", write_field 5 8)
    ∷ ("dbrp", write_field 5 16)
    ∷ ("tdc", write_flag 23)
    ∷ []

abbrev pub test_readers : Readers
test_readers = ("lbck", read_flag 4) ∷ ("tx", read_field 5 3) ∷ ("rx", read_flag 7) ∷ []

abbrev pub test_writers : Writers
test_writers = ("lbck", write_flag 4) ∷ ("tx", write_field 2 5) ∷ ("rx", write_flag 7) ∷ []

abbrev pub rwd_readers : Readers
rwd_readers = ("wdc", read_field 0 0xff) ∷ ("wdv", read_field 8 0xff) ∷ []

abbrev pub rwd_writers : Writers
rwd_writers = ("wdc", write_field 8 0) ∷ ("wdv", write_field 8 8) ∷ []

abbrev pub cccr_readers : Readers
cccr_readers =
    ("init", read_flag 0)
    ∷ ("cce", read_flag 1)
    ∷ ("asm", read_flag 2)
    ∷ ("csa", read_flag 3)
    ∷ ("csr", read_flag 4)
    ∷ ("mon", read_flag 5)
    ∷ ("dar", read_flag 6)
    ∷ ("test", read_flag 7)
    ∷ ("fdoe", read_flag 8)
    ∷ ("brse", read_flag 9)
    ∷ ("pxhd", read_flag 12)
    ∷ ("efbi", read_flag 13)
    ∷ ("txp", read_flag 14)
    ∷ ("niso", read_flag 15)
    ∷ []

abbrev pub cccr_writers : Writers
cccr_writers =
    ("init", write_flag 0)
    ∷ ("cce", write_flag 1)
    ∷ ("asm", write_flag 2)
    ∷ ("csa", write_flag 3)
    ∷ ("csr", write_flag 4)
    ∷ ("mon", write_flag 5)
    ∷ ("dar", write_flag 6)
    ∷ ("test", write_flag 7)
    ∷ ("fdoe", write_flag 8)
    ∷ ("brse", write_flag 9)
    ∷ ("pxhd", write_flag 12)
    ∷ ("efbi", write_flag 13)
    ∷ ("txp", write_flag 14)
    ∷ ("niso", write_flag 15)
    ∷ []

abbrev pub nbtp_readers : Readers
nbtp_readers =
    ("ntseg2", read_field 0 0x7f)
    ∷ ("ntseg1", read_field 8 0xff)
    ∷ ("nbrp", read_field 16 0x01ff)
    ∷ ("nsjw", read_field 25 0x7f)
    ∷ []

abbrev pub nbtp_writers : Writers
nbtp_writers =
    ("ntseg2", write_field 7 0)
    ∷ ("ntseg1", write_field 8 8)
    ∷ ("nbrp", write_field 9 16)
    ∷ ("nsjw", write_field 7 25)
    ∷ []

abbrev pub tscc_readers : Readers
tscc_readers = ("tss", read_field 0 3) ∷ ("tcp", read_field 16 0x0f) ∷ []

abbrev pub tscc_writers : Writers
tscc_writers = ("tss", write_field 2 0) ∷ ("tcp", write_field 4 16) ∷ []

abbrev pub tscv_readers : Readers
tscv_readers = ("tsc", read_field 0 0xffff) ∷ []

abbrev pub tocc_readers : Readers
tocc_readers = ("etoc", read_flag 0) ∷ ("tos", read_field 1 3) ∷ ("top", read_field 16 0xffff) ∷ []

abbrev pub tocc_writers : Writers
tocc_writers = ("etoc", write_flag 0) ∷ ("tos", write_field 2 1) ∷ ("top", write_field 16 16) ∷ []

abbrev pub tocv_readers : Readers
tocv_readers = ("toc", read_field 0 0xffff) ∷ []

abbrev pub tocv_writers : Writers
tocv_writers = ("toc", write_field 16 0) ∷ []

abbrev pub ecr_readers : Readers
ecr_readers =
    ("tec", read_field 0 0xff)
    ∷ ("rec", read_field 8 0x7f)
    ∷ ("rp", read_flag 15)
    ∷ ("cel", read_field 16 0xff)
    ∷ []

abbrev pub psr_readers : Readers
psr_readers =
    ("lec", read_field 0 7)
    ∷ ("act", read_field 3 3)
    ∷ ("ep", read_flag 5)
    ∷ ("ew", read_flag 6)
    ∷ ("bo", read_flag 7)
    ∷ ("dlec", read_field 8 7)
    ∷ ("resi", read_flag 11)
    ∷ ("rbrs", read_flag 12)
    ∷ ("rfdf", read_flag 13)
    ∷ ("pxe", read_flag 14)
    ∷ ("tdcv", read_field 16 0x7f)
    ∷ []

abbrev pub tdcr_readers : Readers
tdcr_readers = ("tdcf", read_field 0 0x7f) ∷ ("tdco", read_field 8 0x7f) ∷ []

abbrev pub tdcr_writers : Writers
tdcr_writers = ("tdcf", write_field 7 0) ∷ ("tdco", write_field 7 8) ∷ []

abbrev pub ile_readers : Readers
ile_readers = ("eint0", read_flag 0) ∷ ("eint1", read_flag 1) ∷ []

abbrev pub ile_writers : Writers
ile_writers = ("eint0", write_flag 0) ∷ ("eint1", write_flag 1) ∷ []
