-- ===== src/Reg/Layout.antt =====
-- The layout of `RegisterBlock` (mcan/src/reg.rs) against the offsets in its documentation.
use mcan.Base.{ℕ, ◌+◌, ◌≡◌, refl, List, [], ◌∷◌, Option, none, some}
use mcan.Reg.Block.{Register, Item, reg, reserved, register_block, Register-discrete}
use mcan.Reg.Block.{
  crel, endn, cust, dbtp, test, rwd, cccr, nbtp, tscc, tscv, tocc, tocv, ecr, psr, tdcr, ir, ie,
  ils, ile, gfc, sidfc, xidfc, xidam, hpms, ndat1, ndat2, rxf0_c, rxf0_s, rxf0_a, rxbc, rxf1_c,
  rxf1_s, rxf1_a, rxesc, txbc, txfqs, txesc, txbrp, txbar, txbcr, txbto, txbcf, txbtie, txbcie,
  txefc, txefs, txefa,
}
use mathlib.Core.Logic.{ite}

-- The offset of a register in a `repr(C)` struct that starts at `start`: a register takes four bytes.
abbrev pub offset_of : Register → ℕ → List Item → Option ℕ
offset_of r start [] = none
offset_of r start (reserved bytes ∷ items) = offset_of r (start + bytes) items
offset_of r start (reg q ∷ items) =
    ite (Register-discrete q r) (some start) (offset_of r (start + 4) items)

-- The offsets of the documentation; `RxFifoRegs` has RXFC, RXFS and RXFA in this order.
abbrev pub documented : Register → ℕ
documented crel = 0x00
documented endn = 0x04
documented cust = 0x08
documented dbtp = 0x0c
documented test = 0x10
documented rwd = 0x14
documented cccr = 0x18
documented nbtp = 0x1c
documented tscc = 0x20
documented tscv = 0x24
documented tocc = 0x28
documented tocv = 0x2c
documented ecr = 0x40
documented psr = 0x44
documented tdcr = 0x48
documented ir = 0x50
documented ie = 0x54
documented ils = 0x58
documented ile = 0x5c
documented gfc = 0x80
documented sidfc = 0x84
documented xidfc = 0x88
documented xidam = 0x90
documented hpms = 0x94
documented ndat1 = 0x98
documented ndat2 = 0x9c
documented rxf0_c = 0xa0
documented rxf0_s = 0xa4
documented rxf0_a = 0xa8
documented rxbc = 0xac
documented rxf1_c = 0xb0
documented rxf1_s = 0xb4
documented rxf1_a = 0xb8
documented rxesc = 0xbc
documented txbc = 0xc0
documented txfqs = 0xc4
documented txesc = 0xc8
documented txbrp = 0xcc
documented txbar = 0xd0
documented txbcr = 0xd4
documented txbto = 0xd8
documented txbcf = 0xdc
documented txbtie = 0xe0
documented txbcie = 0xe4
documented txefc = 0xf0
documented txefs = 0xf4
documented txefa = 0xf8

-- Each register stands at the documented offset.
pub offset_of-register_block : (r : Register) → offset_of r 0 register_block ≡ some (documented r)
unfolding register_block Register-discrete
offset_of-register_block crel = refl
offset_of-register_block endn = refl
offset_of-register_block cust = refl
offset_of-register_block dbtp = refl
offset_of-register_block test = refl
offset_of-register_block rwd = refl
offset_of-register_block cccr = refl
offset_of-register_block nbtp = refl
offset_of-register_block tscc = refl
offset_of-register_block tscv = refl
offset_of-register_block tocc = refl
offset_of-register_block tocv = refl
offset_of-register_block ecr = refl
offset_of-register_block psr = refl
offset_of-register_block tdcr = refl
offset_of-register_block ir = refl
offset_of-register_block ie = refl
offset_of-register_block ils = refl
offset_of-register_block ile = refl
offset_of-register_block gfc = refl
offset_of-register_block sidfc = refl
offset_of-register_block xidfc = refl
offset_of-register_block xidam = refl
offset_of-register_block hpms = refl
offset_of-register_block ndat1 = refl
offset_of-register_block ndat2 = refl
offset_of-register_block rxf0_c = refl
offset_of-register_block rxf0_s = refl
offset_of-register_block rxf0_a = refl
offset_of-register_block rxbc = refl
offset_of-register_block rxf1_c = refl
offset_of-register_block rxf1_s = refl
offset_of-register_block rxf1_a = refl
offset_of-register_block rxesc = refl
offset_of-register_block txbc = refl
offset_of-register_block txfqs = refl
offset_of-register_block txesc = refl
offset_of-register_block txbrp = refl
offset_of-register_block txbar = refl
offset_of-register_block txbcr = refl
offset_of-register_block txbto = refl
offset_of-register_block txbcf = refl
offset_of-register_block txbtie = refl
offset_of-register_block txbcie = refl
offset_of-register_block txefc = refl
offset_of-register_block txefs = refl
offset_of-register_block txefa = refl
