-- ===== src/Reg/Fields/Pending.antt =====
-- The accessors of the transmit buffers that are pending, sent or cancelled: TXBRP, TXBTO and TXBCF
-- (mcan/src/reg/: txbrp.rs, txbto.rs, txbcf.rs).
use mcan.Base.{[], ◌∷◌}
use mcan.Reg.Fields.Defs.{Readers, read_flag}

abbrev pub txbrp_readers : Readers
txbrp_readers =
    ("trp0", read_flag 0)
    ∷ ("trp1", read_flag 1)
    ∷ ("trp2", read_flag 2)
    ∷ ("trp3", read_flag 3)
    ∷ ("trp4", read_flag 4)
    ∷ ("trp5", read_flag 5)
    ∷ ("trp6", read_flag 6)
    ∷ ("trp7", read_flag 7)
    ∷ ("trp8", read_flag 8)
    ∷ ("trp9", read_flag 9)
    ∷ ("trp10", read_flag 10)
    ∷ ("trp11", read_flag 11)
    ∷ ("trp12", read_flag 12)
    ∷ ("trp13", read_flag 13)
    ∷ ("trp14", read_flag 14)
    ∷ ("trp15", read_flag 15)
    ∷ ("trp16", read_flag 16)
    ∷ ("trp17", read_flag 17)
    ∷ ("trp18", read_flag 18)
    ∷ ("trp19", read_flag 19)
    ∷ ("trp20", read_flag 20)
    ∷ ("trp21", read_flag 21)
    ∷ ("trp22", read_flag 22)
    ∷ ("trp23", read_flag 23)
    ∷ ("trp24", read_flag 24)
    ∷ ("trp25", read_flag 25)
    ∷ ("trp26", read_flag 26)
    ∷ ("trp27", read_flag 27)
    ∷ ("trp28", read_flag 28)
    ∷ ("trp29", read_flag 29)
    ∷ ("trp30", read_flag 30)
    ∷ ("trp31", read_flag 31)
    ∷ []

abbrev pub txbto_readers : Readers
txbto_readers =
    ("to0", read_flag 0)
    ∷ ("to1", read_flag 1)
    ∷ ("to2", read_flag 2)
    ∷ ("to3", read_flag 3)
    ∷ ("to4", read_flag 4)
    ∷ ("to5", read_flag 5)
    ∷ ("to6", read_flag 6)
    ∷ ("to7", read_flag 7)
    ∷ ("to8", read_flag 8)
    ∷ ("to9", read_flag 9)
    ∷ ("to10", read_flag 10)
    ∷ ("to11", read_flag 11)
    ∷ ("to12", read_flag 12)
    ∷ ("to13", read_flag 13)
    ∷ ("to14", read_flag 14)
    ∷ ("to15", read_flag 15)
    ∷ ("to16", read_flag 16)
    ∷ ("to17", read_flag 17)
    ∷ ("to18", read_flag 18)
    ∷ ("to19", read_flag 19)
    ∷ ("to20", read_flag 20)
    ∷ ("to21", read_flag 21)
    ∷ ("to22", read_flag 22)
    ∷ ("to23", read_flag 23)
    ∷ ("to24", read_flag 24)
    ∷ ("to25", read_flag 25)
    ∷ ("to26", read_flag 26)
    ∷ ("to27", read_flag 27)
    ∷ ("to28", read_flag 28)
    ∷ ("to29", read_flag 29)
    ∷ ("to30", read_flag 30)
    ∷ ("to31", read_flag 31)
    ∷ []

abbrev pub txbcf_readers : Readers
txbcf_readers =
    ("cf0", read_flag 0)
    ∷ ("cf1", read_flag 1)
    ∷ ("cf2", read_flag 2)
    ∷ ("cf3", read_flag 3)
    ∷ ("cf4", read_flag 4)
    ∷ ("cf5", read_flag 5)
    ∷ ("cf6", read_flag 6)
    ∷ ("cf7", read_flag 7)
    ∷ ("cf8", read_flag 8)
    ∷ ("cf9", read_flag 9)
    ∷ ("cf10", read_flag 10)
    ∷ ("cf11", read_flag 11)
    ∷ ("cf12", read_flag 12)
    ∷ ("cf13", read_flag 13)
    ∷ ("cf14", read_flag 14)
    ∷ ("cf15", read_flag 15)
    ∷ ("cf16", read_flag 16)
    ∷ ("cf17", read_flag 17)
    ∷ ("cf18", read_flag 18)
    ∷ ("cf19", read_flag 19)
    ∷ ("cf20", read_flag 20)
    ∷ ("cf21", read_flag 21)
    ∷ ("cf22", read_flag 22)
    ∷ ("cf23", read_flag 23)
    ∷ ("cf24", read_flag 24)
    ∷ ("cf25", read_flag 25)
    ∷ ("cf26", read_flag 26)
    ∷ ("cf27", read_flag 27)
    ∷ ("cf28", read_flag 28)
    ∷ ("cf29", read_flag 29)
    ∷ ("cf30", read_flag 30)
    ∷ ("cf31", read_flag 31)
    ∷ []
