-- ===== src/Reg/Fields/Agree.antt =====
-- Each writer agrees with the reader of its name, and leaves the other fields alone.
mod Check
use Prim.Native.String.{String}
use mcan.Base.{ℕ, ◌%◌, ◌^◌, ◌<◌, ◌≡◌, ◌≢◌, refl, true, some}
use mcan.Reg.Block.{
  Register, crel, endn, cust, dbtp, test, rwd, cccr, nbtp, tscc, tscv, tocc, tocv, ecr, psr, tdcr,
  ir, ie, ils, ile, gfc, sidfc, xidfc, xidam, hpms, ndat1, ndat2, rxf0_c, rxf0_s, rxf0_a, rxbc,
  rxf1_c, rxf1_s, rxf1_a, rxesc, txbc, txfqs, txesc, txbrp, txbar, txbcr, txbto, txbcf, txbtie,
  txbcie, txefc, txefs, txefa,
}
use mcan.Reg.Fields.Defs.{Reader, Writer, read, write, width, lookup}
use mcan.Reg.Fields.Table.{readers, writers}
use mcan.Reg.Fields.Agree.Check.{check, check-reader, check-other}

-- The tables of every register pass the check.
checked : (r : Register) → check (readers r) (writers r) ≡ true
checked crel = refl
checked endn = refl
checked cust = refl
checked dbtp = refl
checked test = refl
checked rwd = refl
checked cccr = refl
checked nbtp = refl
checked tscc = refl
checked tscv = refl
checked tocc = refl
checked tocv = refl
checked ecr = refl
checked psr = refl
checked tdcr = refl
checked ir = refl
checked ie = refl
checked ils = refl
checked ile = refl
checked gfc = refl
checked sidfc = refl
checked xidfc = refl
checked xidam = refl
checked hpms = refl
checked ndat1 = refl
checked ndat2 = refl
checked rxf0_c = refl
checked rxf0_s = refl
checked rxf0_a = refl
checked rxbc = refl
checked rxf1_c = refl
checked rxf1_s = refl
checked rxf1_a = refl
checked rxesc = refl
checked txbc = refl
checked txfqs = refl
checked txesc = refl
checked txbrp = refl
checked txbar = refl
checked txbcr = refl
checked txbto = refl
checked txbcf = refl
checked txbtie = refl
checked txbcie = refl
checked txefc = refl
checked txefs = refl
checked txefa = refl

-- A field that can be written can be read by the same name, and then reads the value that was written.
pub read-written :
    (r : Register) (name : String) (w : Writer) (value bits : ℕ)
    → lookup name (writers r) ≡ some w
    → bits < 2 ^ 32
    → (rd : Reader) × (lookup name (readers r) ≡ some rd)
      × (read rd (write w value bits) ≡ value % 2 ^ width w)
read-written r name w value bits here fits =
    check-reader (readers r) (writers r) name w value bits (checked r) here fits

-- In each register, a field that can be written can be read by the same name, and then reads the value that was
-- written, cut to its width; and what the reader of any other name reads stays as it was.
pub read-write :
    (r : Register) (name other : String) (w : Writer) (rd' : Reader) (value bits : ℕ)
    → lookup name (writers r) ≡ some w
    → lookup other (readers r) ≡ some rd'
    → name ≢ other
    → bits < 2 ^ 32
    → (rd : Reader) × (lookup name (readers r) ≡ some rd)
      × (read rd (write w value bits) ≡ value % 2 ^ width w)
      × (read rd' (write w value bits) ≡ read rd' bits)
read-write r name other w rd' value bits here there apart fits =
    let own = read-written r name w value bits here fits in
    (
      own.0,
      own.1,
      own.2,
      check-other (readers r) (writers r) name other w rd' value bits (checked r) here there apart
          fits,
    )
