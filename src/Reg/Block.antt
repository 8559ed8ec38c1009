-- ===== src/Reg/Block.antt =====
-- `RegisterBlock` and `RxFifoRegs` (mcan/src/reg.rs): the registers in the order of the `repr(C)`
-- structs, and the reset values of the specs in mcan/src/reg/*.rs.
use mcan.Base.{ℕ, List, [], ◌∷◌, ◌++◌}

-- The registers. The two receive FIFOs have a group of three each, and `RxFifoRegs` names them.
pub data Register : Type 0 where
  crel endn cust dbtp test rwd cccr nbtp tscc tscv tocc tocv : Register
  ecr psr tdcr ir ie ils ile : Register
  gfc sidfc xidfc xidam hpms ndat1 ndat2 : Register
  rxf0_c rxf0_s rxf0_a rxbc rxf1_c rxf1_s rxf1_a rxesc : Register
  txbc txfqs txesc txbrp txbar txbcr txbto txbcf txbtie txbcie : Register
  txefc txefs txefa : Register

-- A field of the struct: a register of four bytes, or an array of reserved bytes.
pub data Item : Type 0 where
  reg : Register → Item
  reserved : ℕ → Item

unfoldable pub rx_fifo_regs : Register → Register → Register → List Item
rx_fifo_regs c s a = reg c ∷ reg s ∷ reg a ∷ []

unfoldable pub register_block : List Item
unfolding rx_fifo_regs
register_block =
    reg crel
    ∷ reg endn
    ∷ reg cust
    ∷ reg dbtp
    ∷ reg test
    ∷ reg rwd
    ∷ reg cccr
    ∷ reg nbtp
    ∷ reg tscc
    ∷ reg tscv
    ∷ reg tocc
    ∷ reg tocv
    ∷ reserved 0x10
    ∷ reg ecr
    ∷ reg psr
    ∷ reg tdcr
    ∷ reserved 0x04
    ∷ reg ir
    ∷ reg ie
    ∷ reg ils
    ∷ reg ile
    ∷ reserved 0x20
    ∷ reg gfc
    ∷ reg sidfc
    ∷ reg xidfc
    ∷ reserved 0x04
    ∷ reg xidam
    ∷ reg hpms
    ∷ reg ndat1
    ∷ reg ndat2
    ∷ (rx_fifo_regs rxf0_c rxf0_s rxf0_a
        ++ (reg rxbc
            ∷ (rx_fifo_regs rxf1_c rxf1_s rxf1_a
                ++ (reg rxesc
                    ∷ reg txbc
                    ∷ reg txfqs
                    ∷ reg txesc
                    ∷ reg txbrp
                    ∷ reg txbar
                    ∷ reg txbcr
                    ∷ reg txbto
                    ∷ reg txbcf
                    ∷ reg txbtie
                    ∷ reg txbcie
                    ∷ reserved 0x08
                    ∷ reg txefc
                    ∷ reg txefs
                    ∷ reg txefa
                    ∷ []))))

-- `RESET_VALUE` of each spec. All the writable ones have `ZERO_TO_MODIFY_FIELDS_BITMAP` and
-- `ONE_TO_MODIFY_FIELDS_BITMAP` 0.
unfoldable pub reset_value : Register → ℕ
reset_value crel = 0x3210_0000
reset_value endn = 0x8765_4321
reset_value dbtp = 0x0a33
reset_value cccr = 0x01
reset_value nbtp = 0x0600_0a03
reset_value tocc = 0xffff_0000
reset_value tocv = 0xffff
reset_value psr = 0x0707
reset_value xidam = 0x1fff_ffff
reset_value _ = 0

unfoldable pub Register-discrete : Discrete Register
Register-discrete = hlevel
