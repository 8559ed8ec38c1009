-- ===== src/Reg/Fields/Variants/Tables.antt =====
-- The enumerations of field values: the types …SELECT_A of mcan/src/reg/psr.rs, gfc.rs, hpms.rs, tocc.rs, test.rs,
-- tscc.rs, rxesc.rs and txesc.rs: the variants with their discriminants, the arms of the reader's `variant`, the
-- variants that the reader's functions `is_…` test for, and those that the writer's functions write.
use Prim.Native.String.{String}
use mcan.Base.{List, [], ◌∷◌}
use mcan.Reg.Block.{Register, psr, gfc, hpms, tocc, test, tscc, rxesc, txesc}
use mcan.Reg.Fields.Variants.Defs.{Enumeration, no_variant, unreachable}

abbrev pub lec_select : Enumeration
lec_select = record {
  discriminants =
      ("NONE", 0)
      ∷ ("STUFF", 1)
      ∷ ("FORM", 2)
      ∷ ("ACK", 3)
      ∷ ("BIT1", 4)
      ∷ ("BIT0", 5)
      ∷ ("CRC", 6)
      ∷ ("NC", 7)
      ∷ [];
  arms =
      (0, "NONE")
      ∷ (1, "STUFF")
      ∷ (2, "FORM")
      ∷ (3, "ACK")
      ∷ (4, "BIT1")
      ∷ (5, "BIT0")
      ∷ (6, "CRC")
      ∷ (7, "NC")
      ∷ [];
  last_arm = unreachable;
  tests =
      ("none", "NONE")
      ∷ ("stuff", "STUFF")
      ∷ ("form", "FORM")
      ∷ ("ack", "ACK")
      ∷ ("bit1", "BIT1")
      ∷ ("bit0", "BIT0")
      ∷ ("crc", "CRC")
      ∷ ("nc", "NC")
      ∷ [];
  writer_functions = [];
}

abbrev pub act_select : Enumeration
act_select = record {
  discriminants = ("SYNC", 0) ∷ ("IDLE", 1) ∷ ("RX", 2) ∷ ("TX", 3) ∷ [];
  arms = (0, "SYNC") ∷ (1, "IDLE") ∷ (2, "RX") ∷ (3, "TX") ∷ [];
  last_arm = unreachable;
  tests = ("sync", "SYNC") ∷ ("idle", "IDLE") ∷ ("rx", "RX") ∷ ("tx", "TX") ∷ [];
  writer_functions = [];
}

abbrev pub dlec_select : Enumeration
dlec_select = record {
  discriminants =
      ("NONE", 0)
      ∷ ("STUFF", 1)
      ∷ ("FORM", 2)
      ∷ ("ACK", 3)
      ∷ ("BIT1", 4)
      ∷ ("BIT0", 5)
      ∷ ("CRC", 6)
      ∷ ("NC", 7)
      ∷ [];
  arms =
      (0, "NONE")
      ∷ (1, "STUFF")
      ∷ (2, "FORM")
      ∷ (3, "ACK")
      ∷ (4, "BIT1")
      ∷ (5, "BIT0")
      ∷ (6, "CRC")
      ∷ (7, "NC")
      ∷ [];
  last_arm = unreachable;
  tests =
      ("none", "NONE")
      ∷ ("stuff", "STUFF")
      ∷ ("form", "FORM")
      ∷ ("ack", "ACK")
      ∷ ("bit1", "BIT1")
      ∷ ("bit0", "BIT0")
      ∷ ("crc", "CRC")
      ∷ ("nc", "NC")
      ∷ [];
  writer_functions = [];
}

abbrev pub anfe_select : Enumeration
anfe_select = record {
  discriminants = ("RXF0", 0) ∷ ("RXF1", 1) ∷ ("REJECT", 2) ∷ [];
  arms = (0, "RXF0") ∷ (1, "RXF1") ∷ (2, "REJECT") ∷ [];
  last_arm = no_variant;
  tests = ("rxf0", "RXF0") ∷ ("rxf1", "RXF1") ∷ ("reject", "REJECT") ∷ [];
  writer_functions = ("rxf0", "RXF0") ∷ ("rxf1", "RXF1") ∷ ("reject", "REJECT") ∷ [];
}

abbrev pub anfs_select : Enumeration
anfs_select = record {
  discriminants = ("RXF0", 0) ∷ ("RXF1", 1) ∷ ("REJECT", 2) ∷ [];
  arms = (0, "RXF0") ∷ (1, "RXF1") ∷ (2, "REJECT") ∷ [];
  last_arm = no_variant;
  tests = ("rxf0", "RXF0") ∷ ("rxf1", "RXF1") ∷ ("reject", "REJECT") ∷ [];
  writer_functions = ("rxf0", "RXF0") ∷ ("rxf1", "RXF1") ∷ ("reject", "REJECT") ∷ [];
}

abbrev pub msi_select : Enumeration
msi_select = record {
  discriminants = ("NONE", 0) ∷ ("LOST", 1) ∷ ("FIFO0", 2) ∷ ("FIFO1", 3) ∷ [];
  arms = (0, "NONE") ∷ (1, "LOST") ∷ (2, "FIFO0") ∷ (3, "FIFO1") ∷ [];
  last_arm = unreachable;
  tests = ("none", "NONE") ∷ ("lost", "LOST") ∷ ("fifo0", "FIFO0") ∷ ("fifo1", "FIFO1") ∷ [];
  writer_functions = [];
}

abbrev pub tos_select : Enumeration
tos_select = record {
  discriminants = ("CONT", 0) ∷ ("TXEF", 1) ∷ ("RXF0", 2) ∷ ("RXF1", 3) ∷ [];
  arms = (0, "CONT") ∷ (1, "TXEF") ∷ (2, "RXF0") ∷ (3, "RXF1") ∷ [];
  last_arm = unreachable;
  tests = ("cont", "CONT") ∷ ("txef", "TXEF") ∷ ("rxf0", "RXF0") ∷ ("rxf1", "RXF1") ∷ [];
  writer_functions = ("cont", "CONT") ∷ ("txef", "TXEF") ∷ ("rxf0", "RXF0") ∷ ("rxf1", "RXF1") ∷ [];
}

abbrev pub tx_select : Enumeration
tx_select = record {
  discriminants = ("CORE", 0) ∷ ("SAMPLE", 1) ∷ ("DOMINANT", 2) ∷ ("RECESSIVE", 3) ∷ [];
  arms = (0, "CORE") ∷ (1, "SAMPLE") ∷ (2, "DOMINANT") ∷ (3, "RECESSIVE") ∷ [];
  last_arm = unreachable;
  tests =
      ("core", "CORE")
      ∷ ("sample", "SAMPLE")
      ∷ ("dominant", "DOMINANT")
      ∷ ("recessive", "RECESSIVE")
      ∷ [];
  writer_functions =
      ("core", "CORE")
      ∷ ("sample", "SAMPLE")
      ∷ ("dominant", "DOMINANT")
      ∷ ("recessive", "RECESSIVE")
      ∷ [];
}

abbrev pub tss_select : Enumeration
tss_select = record {
  discriminants = ("ZERO", 0) ∷ ("INC", 1) ∷ ("EXT", 2) ∷ [];
  arms = (0, "ZERO") ∷ (1, "INC") ∷ (2, "EXT") ∷ [];
  last_arm = no_variant;
  tests = ("zero", "ZERO") ∷ ("inc", "INC") ∷ ("ext", "EXT") ∷ [];
  writer_functions = ("zero", "ZERO") ∷ ("inc", "INC") ∷ ("ext", "EXT") ∷ [];
}

abbrev pub f0ds_select : Enumeration
f0ds_select = record {
  discriminants =
      ("DATA8", 0)
      ∷ ("DATA12", 1)
      ∷ ("DATA16", 2)
      ∷ ("DATA20", 3)
      ∷ ("DATA24", 4)
      ∷ ("DATA32", 5)
      ∷ ("DATA48", 6)
      ∷ ("DATA64", 7)
      ∷ [];
  arms =
      (0, "DATA8")
      ∷ (1, "DATA12")
      ∷ (2, "DATA16")
      ∷ (3, "DATA20")
      ∷ (4, "DATA24")
      ∷ (5, "DATA32")
      ∷ (6, "DATA48")
      ∷ (7, "DATA64")
      ∷ [];
  last_arm = unreachable;
  tests =
      ("data8", "DATA8")
      ∷ ("data12", "DATA12")
      ∷ ("data16", "DATA16")
      ∷ ("data20", "DATA20")
      ∷ ("data24", "DATA24")
      ∷ ("data32", "DATA32")
      ∷ ("data48", "DATA48")
      ∷ ("data64", "DATA64")
      ∷ [];
  writer_functions =
      ("data8", "DATA8")
      ∷ ("data12", "DATA12")
      ∷ ("data16", "DATA16")
      ∷ ("data20", "DATA20")
      ∷ ("data24", "DATA24")
      ∷ ("data32", "DATA32")
      ∷ ("data48", "DATA48")
      ∷ ("data64", "DATA64")
      ∷ [];
}

abbrev pub f1ds_select : Enumeration
f1ds_select = record {
  discriminants =
      ("DATA8", 0)
      ∷ ("DATA12", 1)
      ∷ ("DATA16", 2)
      ∷ ("DATA20", 3)
      ∷ ("DATA24", 4)
      ∷ ("DATA32", 5)
      ∷ ("DATA48", 6)
      ∷ ("DATA64", 7)
      ∷ [];
  arms =
      (0, "DATA8")
      ∷ (1, "DATA12")
      ∷ (2, "DATA16")
      ∷ (3, "DATA20")
      ∷ (4, "DATA24")
      ∷ (5, "DATA32")
      ∷ (6, "DATA48")
      ∷ (7, "DATA64")
      ∷ [];
  last_arm = unreachable;
  tests =
      ("data8", "DATA8")
      ∷ ("data12", "DATA12")
      ∷ ("data16", "DATA16")
      ∷ ("data20", "DATA20")
      ∷ ("data24", "DATA24")
      ∷ ("data32", "DATA32")
      ∷ ("data48", "DATA48")
      ∷ ("data64", "DATA64")
      ∷ [];
  writer_functions =
      ("data8", "DATA8")
      ∷ ("data12", "DATA12")
      ∷ ("data16", "DATA16")
      ∷ ("data20", "DATA20")
      ∷ ("data24", "DATA24")
      ∷ ("data32", "DATA32")
      ∷ ("data48", "DATA48")
      ∷ ("data64", "DATA64")
      ∷ [];
}

abbrev pub rbds_select : Enumeration
rbds_select = record {
  discriminants =
      ("DATA8", 0)
      ∷ ("DATA12", 1)
      ∷ ("DATA16", 2)
      ∷ ("DATA20", 3)
      ∷ ("DATA24", 4)
      ∷ ("DATA32", 5)
      ∷ ("DATA48", 6)
      ∷ ("DATA64", 7)
      ∷ [];
  arms =
      (0, "DATA8")
      ∷ (1, "DATA12")
      ∷ (2, "DATA16")
      ∷ (3, "DATA20")
      ∷ (4, "DATA24")
      ∷ (5, "DATA32")
      ∷ (6, "DATA48")
      ∷ (7, "DATA64")
      ∷ [];
  last_arm = unreachable;
  tests =
      ("data8", "DATA8")
      ∷ ("data12", "DATA12")
      ∷ ("data16", "DATA16")
      ∷ ("data20", "DATA20")
      ∷ ("data24", "DATA24")
      ∷ ("data32", "DATA32")
      ∷ ("data48", "DATA48")
      ∷ ("data64", "DATA64")
      ∷ [];
  writer_functions =
      ("data8", "DATA8")
      ∷ ("data12", "DATA12")
      ∷ ("data16", "DATA16")
      ∷ ("data20", "DATA20")
      ∷ ("data24", "DATA24")
      ∷ ("data32", "DATA32")
      ∷ ("data48", "DATA48")
      ∷ ("data64", "DATA64")
      ∷ [];
}

abbrev pub tbds_select : Enumeration
tbds_select = record {
  discriminants =
      ("DATA8", 0)
      ∷ ("DATA12", 1)
      ∷ ("DATA16", 2)
      ∷ ("DATA20", 3)
      ∷ ("DATA24", 4)
      ∷ ("DATA32", 5)
      ∷ ("DATA48", 6)
      ∷ ("DATA64", 7)
      ∷ [];
  arms =
      (0, "DATA8")
      ∷ (1, "DATA12")
      ∷ (2, "DATA16")
      ∷ (3, "DATA20")
      ∷ (4, "DATA24")
      ∷ (5, "DATA32")
      ∷ (6, "DATA48")
      ∷ (7, "DATA64")
      ∷ [];
  last_arm = unreachable;
  tests =
      ("data8", "DATA8")
      ∷ ("data12", "DATA12")
      ∷ ("data16", "DATA16")
      ∷ ("data20", "DATA20")
      ∷ ("data24", "DATA24")
      ∷ ("data32", "DATA32")
      ∷ ("data48", "DATA48")
      ∷ ("data64", "DATA64")
      ∷ [];
  writer_functions =
      ("data8", "DATA8")
      ∷ ("data12", "DATA12")
      ∷ ("data16", "DATA16")
      ∷ ("data20", "DATA20")
      ∷ ("data24", "DATA24")
      ∷ ("data32", "DATA32")
      ∷ ("data48", "DATA48")
      ∷ ("data64", "DATA64")
      ∷ [];
}

-- By the register and the name of the field.
abbrev pub enumerations : Register → List (String × Enumeration)
enumerations psr = ("lec", lec_select) ∷ ("act", act_select) ∷ ("dlec", dlec_select) ∷ []
enumerations gfc = ("anfe", anfe_select) ∷ ("anfs", anfs_select) ∷ []
enumerations hpms = ("msi", msi_select) ∷ []
enumerations tocc = ("tos", tos_select) ∷ []
enumerations test = ("tx", tx_select) ∷ []
enumerations tscc = ("tss", tss_select) ∷ []
enumerations rxesc = ("f0ds", f0ds_select) ∷ ("f1ds", f1ds_select) ∷ ("rbds", rbds_select) ∷ []
enumerations txesc = ("tbds", tbds_select) ∷ []
enumerations _ = []
