-- ===== src/Reg/Fields/Table.antt =====
-- The accessors of every register of the block (mcan/src/reg.rs).
use mcan.Base.{[]}
use mcan.Reg.Block.{
  Register, crel, endn, cust, dbtp, test, rwd, cccr, nbtp, tscc, tscv, tocc, tocv, ecr, psr, tdcr,
  ir, ie, ils, ile, gfc, sidfc, xidfc, xidam, hpms, ndat1, ndat2, rxf0_c, rxf0_s, rxf0_a, rxbc,
  rxf1_c, rxf1_s, rxf1_a, rxesc, txbc, txfqs, txesc, txbrp, txbar, txbcr, txbto, txbcf, txbtie,
  txbcie, txefc, txefs, txefa,
}
use mcan.Reg.Fields.Defs.{Readers, Writers}
use mcan.Reg.Fields.Core.{
  crel_readers, endn_readers, dbtp_readers, test_readers, rwd_readers, cccr_readers, nbtp_readers,
  tscc_readers, tscv_readers, tocc_readers, tocv_readers, ecr_readers, psr_readers, tdcr_readers,
  ile_readers, dbtp_writers, test_writers, rwd_writers, cccr_writers, nbtp_writers, tscc_writers,
  tocc_writers, tocv_writers, tdcr_writers, ile_writers,
}
use mcan.Reg.Fields.InterruptFlags.{ir_readers, ir_writers}
use mcan.Reg.Fields.InterruptEnable.{ie_readers, ie_writers}
use mcan.Reg.Fields.InterruptLine.{ils_readers, ils_writers}
use mcan.Reg.Fields.Receive.{
  gfc_readers, sidfc_readers, xidfc_readers, xidam_readers, hpms_readers, rxfc_readers,
  rxfs_readers, rxfa_readers, rxbc_readers, rxesc_readers, gfc_writers, sidfc_writers,
  xidfc_writers, xidam_writers, rxfc_writers, rxfa_writers, rxbc_writers, rxesc_writers,
}
use mcan.Reg.Fields.NewData1.{ndat1_readers, ndat1_writers}
use mcan.Reg.Fields.NewData2.{ndat2_readers, ndat2_writers}
use mcan.Reg.Fields.Transmit.{
  txbc_readers, txfqs_readers, txesc_readers, txefc_readers, txefs_readers, txefa_readers,
  txbc_writers, txesc_writers, txefc_writers, txefa_writers,
}
use mcan.Reg.Fields.Pending.{txbrp_readers, txbto_readers, txbcf_readers}
use mcan.Reg.Fields.AddRequest.{txbar_readers, txbar_writers}
use mcan.Reg.Fields.CancelRequest.{txbcr_readers, txbcr_writers}
use mcan.Reg.Fields.CompletionEnable.{txbtie_readers, txbtie_writers}
use mcan.Reg.Fields.CancellationEnable.{txbcie_readers, txbcie_writers}

abbrev pub readers : Register → Readers
readers crel = crel_readers
readers endn = endn_readers
readers cust = []
readers dbtp = dbtp_readers
readers test = test_readers
readers rwd = rwd_readers
readers cccr = cccr_readers
readers nbtp = nbtp_readers
readers tscc = tscc_readers
readers tscv = tscv_readers
readers tocc = tocc_readers
readers tocv = tocv_readers
readers ecr = ecr_readers
readers psr = psr_readers
readers tdcr = tdcr_readers
readers ir = ir_readers
readers ie = ie_readers
readers ils = ils_readers
readers ile = ile_readers
readers gfc = gfc_readers
readers sidfc = sidfc_readers
readers xidfc = xidfc_readers
readers xidam = xidam_readers
readers hpms = hpms_readers
readers ndat1 = ndat1_readers
readers ndat2 = ndat2_readers
readers rxf0_c = rxfc_readers
readers rxf0_s = rxfs_readers
readers rxf0_a = rxfa_readers
readers rxbc = rxbc_readers
readers rxf1_c = rxfc_readers
readers rxf1_s = rxfs_readers
readers rxf1_a = rxfa_readers
readers rxesc = rxesc_readers
readers txbc = txbc_readers
readers txfqs = txfqs_readers
readers txesc = txesc_readers
readers txbrp = txbrp_readers
readers txbar = txbar_readers
readers txbcr = txbcr_readers
readers txbto = txbto_readers
readers txbcf = txbcf_readers
readers txbtie = txbtie_readers
readers txbcie = txbcie_readers
readers txefc = txefc_readers
readers txefs = txefs_readers
readers txefa = txefa_readers

-- The registers without `impl W` are only read.
abbrev pub writers : Register → Writers
writers crel = []
writers endn = []
writers cust = []
writers dbtp = dbtp_writers
writers test = test_writers
writers rwd = rwd_writers
writers cccr = cccr_writers
writers nbtp = nbtp_writers
writers tscc = tscc_writers
writers tscv = []
writers tocc = tocc_writers
writers tocv = tocv_writers
writers ecr = []
writers psr = []
writers tdcr = tdcr_writers
writers ir = ir_writers
writers ie = ie_writers
writers ils = ils_writers
writers ile = ile_writers
writers gfc = gfc_writers
writers sidfc = sidfc_writers
writers xidfc = xidfc_writers
writers xidam = xidam_writers
writers hpms = []
writers ndat1 = ndat1_writers
writers ndat2 = ndat2_writers
writers rxf0_c = rxfc_writers
writers rxf0_s = []
writers rxf0_a = rxfa_writers
writers rxbc = rxbc_writers
writers rxf1_c = rxfc_writers
writers rxf1_s = []
writers rxf1_a = rxfa_writers
writers rxesc = rxesc_writers
writers txbc = txbc_writers
writers txfqs = []
writers txesc = txesc_writers
writers txbrp = []
writers txbar = txbar_writers
writers txbcr = txbcr_writers
writers txbto = []
writers txbcf = []
writers txbtie = txbtie_writers
writers txbcie = txbcie_writers
writers txefc = txefc_writers
writers txefs = []
writers txefa = txefa_writers
