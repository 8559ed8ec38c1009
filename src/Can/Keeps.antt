-- ===== src/Can/Keeps.antt =====
-- What the mode changes leave alone in CCCR (mcan/src/reg.rs).
use mcan.Base.{ℕ, ◌<◌, ◌^◌, ◌≡◌, ◌≢◌, refl, Bool, arith, ◌∙◌, ap, sym, subst}
use mcan.Bits.{u32, test_bit}
use mcan.Can.{set_init}
use mcan.Can.Preserves.{Preserves, Preserves-set_init}
use mcan.Reg.Block.{cccr, Register-discrete}
use mcan.Reg.Field.{
  mask, field_bits, bit, clear_bit, test_bit-field_bits, clear_bit-field_bits, flag, field_bits-lt,
}
use mcan.Reg.Io.{Trace, Hardware, answer, modify_reg}
use mcan.Reg.Stored.{stored, Holds}

module _ {M : Type 0} (hw : Hardware M) (start : ℕ) (held : Holds hw cccr start) (i : ℕ)
    (small : i < 32) (not_init : i ≢ 0) (not_csr : i ≢ 4) (b : Bool) where
  -- Bit `i` of the word in CCCR is `b`.
  abbrev Has : Trace M → Type 0
  Has t = test_bit (u32 (stored cccr start t)) i ≡ b

  Has-modify :
      (f : ℕ → ℕ)
      → ((w : ℕ) → w < 2 ^ 32 → (f w < 2 ^ 32) × (test_bit (f w) i ≡ test_bit w i))
      → Preserves hw Has (modify_reg hw cccr f)
  unfolding modify_reg Register-discrete
  Has-modify f k t h =
      let w : ℕ = answer hw t cccr in
      let s = k w (omega arith) in
      let e : u32 (f w) ≡ f w = omega (arith, s.0) in
      ap (λ (x : ℕ). test_bit x i) e ∙ (s.1 ∙ (ap (λ (x : ℕ). test_bit (u32 x) i) (held t) ∙ h))

  clear-keeps :
      (w : ℕ) → w < 2 ^ 32 → (clear_bit 4 w < 2 ^ 32) × (test_bit (clear_bit 4 w) i ≡ test_bit w i)
  clear-keeps w fits =
      let e = clear_bit-field_bits 4 w (omega arith) fits in
      (
        subst (λ (x : ℕ). x < 2 ^ 32) (sym e) (field_bits-lt 1 4 0 w fits),
        ap (λ (x : ℕ). test_bit x i) e
            ∙ ground (arith, test_bit-field_bits 1 4 0 w i (omega arith) fits small),
      )

  init-keeps :
      (value : Bool) (w : ℕ)
      → w < 2 ^ 32
      → (bit 0 value w < 2 ^ 32) × (test_bit (bit 0 value w) i ≡ test_bit w i)
  unfolding bit field_bits mask
  init-keeps value w fits = (
    field_bits-lt 1 0 (flag value) w fits,
    test_bit-field_bits 1 0 (flag value) w i (omega arith) fits small ∙ ground arith,
  )

  -- `set_init` keeps every bit of CCCR but INIT and CSR, however it ends.
  set_init-Has : (fuel : ℕ) (value : Bool) → Preserves hw Has (set_init hw fuel value)
  set_init-Has =
      Preserves-set_init hw Has (λ v t h. h) (Has-modify (clear_bit 4) clear-keeps)
        (λ value. Has-modify (bit 0 value) (init-keeps value))

module _ {M : Type 0} (hw : Hardware M) (start : ℕ) (held : Holds hw cccr start) where
  -- `set_init` keeps every bit of CCCR but INIT and CSR, if CCCR reads back what was written to it, even where it
  -- runs out of fuel.
  pub set_init-keeps :
      (i fuel : ℕ) (value : Bool) (t : Trace M)
      → i < 32
      → i ≢ 0
      → i ≢ 4
      → test_bit (u32 (stored cccr start (set_init hw fuel value t).1)) i
        ≡ test_bit (u32 (stored cccr start t)) i
  set_init-keeps i fuel value t small not_init not_csr =
      set_init-Has hw start held i small not_init not_csr (test_bit (u32 (stored cccr start t)) i)
        fuel value t refl
