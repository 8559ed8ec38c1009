-- ===== src/Bus/Errors.antt =====
-- What `apply_configuration` leaves alone when it fails (mcan/src/bus.rs).
use mcan.Base.{
  ℕ, ◌≤◌, ◌<◌, ◌^◌, ◌≡◌, ◌≢◌, ◌⊎◌, ◌&&◌, leb, Bool-cases, Bool, arith, ◌∙◌, sym, ap, inl, inr,
}
use mcan.Bits.{u32, test_bit}
use mcan.Bus.{apply_configuration, apply_mode, CanConfig, failed, ConfigurationError}
use mcan.Bus.Registers.{contents}
use mcan.Bus.Run.{data_phase, timing_trace, switch_trace, guarded, data_lem, mode_lem, Ending}
use mcan.Bus.Success.{Result-cases}
use mcan.Config.{Fugit, Mode, classic, fd, nominal_bit_timing_ranges, prescaler, contains}
use mcan.Message.Raw.{RawMessage}
use mcan.Reg.Block.{Register, Register-discrete, nbtp, tscc, cccr}
use mcan.Reg.Field.{
  mask, field_bits, bit, set_bit, clear_bit, flag, test_bit-field_bits, field_bits-lt,
  set_bit-field_bits, clear_bit-field_bits,
}
use mcan.Reg.Io.{Hardware, Trace, done, answer}
use mcan.Reg.Stored.{Holds}
use mcan.TxBuffers.{Tx}
use mathlib.Core.Logic.{if_neg}

-- A field of one bit, at `of`, keeps the other bits.
field-keeps :
    (of i value w : ℕ)
    → i < 32
    → w < 2 ^ 32
    → i ≢ of
    → test_bit (field_bits 1 of value w) i ≡ test_bit w i
field-keeps of i value w small fits ne =
    test_bit-field_bits 1 of value w i (omega arith) fits small ∙ ground arith

module _ {g : Fugit} (hw : Hardware RawMessage) (f_can : g.HertzU32) (config : CanConfig g)
    (start : Register → ℕ) (held : Holds hw cccr (start cccr)) where
  switch-keeps :
      (m : Mode g) (t : Trace RawMessage) (i : ℕ)
      → i < 32
      → i ≢ 8
      → i ≢ 9
      → test_bit (u32 (contents start (switch_trace hw f_can config m t) cccr)) i
        ≡ test_bit (u32 (contents start t cccr)) i
  unfolding Register-discrete bit field_bits mask
  switch-keeps classic t i small n8 n9 =
      let w : ℕ = answer hw t cccr in
      let e : clear_bit 8 w ≡ field_bits 1 8 0 w =
        clear_bit-field_bits 8 w (omega arith) (omega arith) in
      let l = field_bits-lt 1 8 0 w (omega arith) in
      let back : u32 (clear_bit 8 w) ≡ field_bits 1 8 0 w = omega (arith, e, l) in
      ap (λ (x : ℕ). test_bit x i) back
      ∙ (field-keeps 8 i 0 w small (omega arith) n8 ∙ ap (λ (x : ℕ). test_bit (u32 x) i) (held t))
  switch-keeps (fd allow timing) t i small n8 n9 =
      let w : ℕ = answer hw t cccr in
      let e : bit 9 allow (set_bit 8 w) ≡ field_bits 1 9 (flag allow) (field_bits 1 8 1 w) =
        ap (bit 9 allow) (set_bit-field_bits 8 w (omega arith) (omega arith)) in
      let l = field_bits-lt 1 8 1 w (omega arith) in
      let l' = field_bits-lt 1 9 (flag allow) (field_bits 1 8 1 w) l in
      let back : u32 (bit 9 allow (set_bit 8 w))
          ≡ field_bits 1 9 (flag allow) (field_bits 1 8 1 w) =
        omega (arith, e, l') in
      ap (λ (x : ℕ). test_bit x i) back
      ∙ (field-keeps 9 i (flag allow) (field_bits 1 8 1 w) small l n9
          ∙ (field-keeps 8 i 1 w small (omega arith) n8
              ∙ ap (λ (x : ℕ). test_bit (u32 x) i) (held t)))

  switch-other :
      (m : Mode g) (t : Trace RawMessage) (r : Register)
      → r ≢ cccr
      → contents start (switch_trace hw f_can config m t) r ≡ contents start t r
  switch-other classic t r ne =
      if_neg (Register-discrete cccr r) (λ (e : cccr ≡ r). ne (sym e)) _ (contents start t r)
  switch-other (fd allow timing) t r ne =
      if_neg (Register-discrete cccr r) (λ (e : cccr ≡ r). ne (sym e)) _ (contents start t r)

  timing-other :
      (p : ℕ) (t : Trace RawMessage) (r : Register)
      → r ≢ nbtp
      → r ≢ tscc
      → contents start (timing_trace hw f_can config p t) r ≡ contents start t r
  timing-other p t r n0 n1 =
      if_neg (Register-discrete tscc r) (λ (e : tscc ≡ r). n1 (sym e)) _ _
      ∙ if_neg (Register-discrete nbtp r) (λ (e : nbtp ≡ r). n0 (sym e)) _ (contents start t r)

  module _ (tx tx' : Tx g) (e : ConfigurationError g) where
    mode-fails :
        (m : Mode g) (t : Trace RawMessage)
        → (apply_mode hw f_can config tx m t).0 ≡ done (failed e, tx')
        → (tx' ≡ tx) × ((apply_mode hw f_can config tx m t).1 ≡ switch_trace hw f_can config m t)
    unfolding apply_mode
    mode-fails classic t h = absurd cc
    mode-fails (fd allow timing) t h = elim (Result-cases (data_phase hw f_can (fd allow timing))) [
      | inl found ↦
          absurd (let k = mode_lem hw f_can config tx (fd allow timing) found.0 t found.1 in cc)
      | inr (inl bad) ↦
          let k = data_lem hw f_can config tx bad.0 (fd allow timing) t bad.1 in
          (cc, ap (λ (r : Ending hw f_can config tx). r.1) k)
      | inr (inr bad) ↦ absurd (ground (arith, h, bad))
    ]

    -- A call that fails has done nothing, or written NBTP and TSCC and switched the mode.
    configuration-fails :
        (t : Trace RawMessage)
        → (apply_configuration hw f_can config tx t).0 ≡ done (failed e, tx')
        → (tx' ≡ tx)
          × (((apply_configuration hw f_can config tx t).1 ≡ t)
              ⊎ ((p : ℕ) × ((apply_configuration hw f_can config tx t).1
                    ≡ switch_trace hw f_can config config.mode (timing_trace hw f_can config p t))))
    unfolding apply_configuration contains
    configuration-fails t h =
        elim (Bool-cases (leb 1 config.timestamp.prescaler && leb config.timestamp.prescaler 16)) [
          | inr out ↦ (ground (arith, h, out), inl (ground (arith, out)))
          | inl inside ↦
              elim (Result-cases
                (prescaler config.nominal_timing f_can nominal_bit_timing_ranges)) [
                  | inl found ↦
                      let low : 1 ≤ config.timestamp.prescaler = ground (arith, inside) in
                      let high : config.timestamp.prescaler ≤ 16 = ground (arith, inside) in
                      let T = timing_trace hw f_can config found.0 t in
                      let k = guarded hw f_can config tx found.0 t low high found.1 in
                      let m =
                        mode-fails config.mode T
                          (ap (λ (r : Ending hw f_can config tx). r.0) (sym k) ∙ h) in
                      (m.0, inr (found.0, ap (λ (r : Ending hw f_can config tx). r.1) k ∙ m.1))
                  | inr (inl bad) ↦
                      (ground (arith, h, inside, bad.1), inl (ground (arith, inside, bad.1)))
                  | inr (inr bad) ↦ absurd (ground (arith, h, inside, bad))
                ]
        ]

    -- If `apply_configuration` fails, for whatever reason, the mode and the rest of `tx` stay as they were, and so do
    -- all registers but NBTP, TSCC and CCCR; of CCCR, if it reads back what was written to it, all bits stay but
    -- FDOE and BRSE.
    pub apply_configuration-error :
        (t : Trace RawMessage) (r : Register) (i : ℕ)
        → (apply_configuration hw f_can config tx t).0 ≡ done (failed e, tx')
        → r ≢ nbtp
        → r ≢ tscc
        → r ≢ cccr
        → i < 32
        → i ≢ 8
        → i ≢ 9
        → (tx' ≡ tx)
          × (contents start (apply_configuration hw f_can config tx t).1 r ≡ contents start t r)
          × (test_bit (u32 (contents start (apply_configuration hw f_can config tx t).1 cccr)) i
              ≡ test_bit (u32 (contents start t cccr)) i)
    apply_configuration-error t r i h n0 n1 n2 small n8 n9 =
        let c = configuration-fails t h in
        let of : Trace RawMessage → ℕ = λ T. contents start T r in
        let bit_of : Trace RawMessage → Bool = λ T. test_bit (u32 (contents start T cccr)) i in
        elim c.1 [
          | inl same ↦ (c.0, ap of same, ap bit_of same)
          | inr (p, run) ↦
              let T = timing_trace hw f_can config p t in
              (
                c.0,
                ap of run ∙ (switch-other config.mode T r n2 ∙ timing-other p t r n0 n1),
                ap bit_of run
                    ∙ (switch-keeps config.mode T i small n8 n9
                        ∙ ap (λ (x : ℕ). test_bit (u32 x) i)
                            (timing-other p t cccr (λ (e : cccr ≡ nbtp). absurd cc)
                              (λ (e : cccr ≡ tscc). absurd cc))),
              )
        ]
