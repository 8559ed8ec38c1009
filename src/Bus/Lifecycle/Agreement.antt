-- ===== src/Bus/Lifecycle/Agreement.antt =====
-- The mode of the bus that `finalize` returns and of the peripheral (mcan/src/bus.rs).
use mcan.Base.{ℕ, ◌≤◌, ◌<◌, ◌≡◌, refl, Bool, false, arith, ◌∙◌, ap, sym, ◌≢◌, if◌then◌else◌}
use mcan.Bits.{u32, test_bit}
use mcan.Bus.Lifecycle.Finalize.{ready}
use mcan.Bus.{Applied, applied, failed, apply_configuration}
use mcan.Bus.Lifecycle.{refused, Finalized, Can, finalized, finalize, finalize_by}
use mcan.Bus.Run.{data_phase, applied_trace, Ending, apply_configuration-run}
use mcan.Can.{set_init, operational_mode}
use mcan.Config.{Mode, Fugit, ok, nominal_bit_timing_ranges, prescaler}
use mcan.Message.Raw.{RawMessage}
use mcan.Reg.Block.{Register, cccr}
use mcan.Reg.Io.{Trace, Hardware, Outcome, done, panic, spin, bind_outcome, return, ◌>>◌}
use mcan.Reg.Stored.{stored}
use mcan.Bus.Registers.{Keeps}
use mcan.Bus.Success.{apply_configuration-applied}
use mcan.Bus.Configured.{after, apply_configuration-mode}
use mcan.Can.Keeps.{set_init-keeps}
use mcan.Reg.Field.{bit_reader, bit_reader-test_bit, bit_reader-u32}
use mcan.TxBuffers.{Tx, is_fd, allows_switching}

bind_outcome-trace :
    {M A B : Type 0} (r : Outcome A × Trace M) (b : B) → (bind_outcome r (λ _. return b)).1 ≡ r.1
bind_outcome-trace (done a, t) b = refl
bind_outcome-trace (panic, t) b = refl
bind_outcome-trace (spin, t) b = refl

bind_outcome-value :
    {M A B : Type 0} (r : Outcome A × Trace M) (b c : B)
    → (bind_outcome r (λ _. return b)).0 ≡ done c
    → b ≡ c
bind_outcome-value (done a, t) b c h = cc
bind_outcome-value (panic, t) b c h = absurd cc
bind_outcome-value (spin, t) b c h = absurd cc

module _ {g : Fugit} (hw : Hardware RawMessage) (fuel : ℕ) (can_clock : g.HertzU32) (self : Can g)
    (t : Trace RawMessage) where
  finalized-applied :
      (r : Outcome (Applied g × Tx g) × Trace RawMessage) (can : Can g)
      → (bind_outcome r (λ (result, tx). elim result [
        | applied ↦ operational_mode hw fuel >> return (finalized (record self { tx = tx }))
        | failed e ↦ return (refused e)
      ])).0
        ≡ done (finalized can)
      → (tx' : Tx g) × (r.0 ≡ done (applied, tx'))
  finalized-applied (done (applied, tx'), u) can h = (tx', refl)
  finalized-applied (done (failed e, tx'), u) can h = absurd cc
  finalized-applied (panic, u) can h = absurd cc
  finalized-applied (spin, u) can h = absurd cc

  -- A bus that `finalize` returns has been configured.
  pub finalize-applied :
      (can : Can g)
      → (finalize hw fuel can_clock self t).0 ≡ done (finalized can)
      → (tx' : Tx g) × ((apply_configuration hw can_clock self.config self.tx t).0
          ≡ done (applied, tx'))
  unfolding finalize finalize_by
  finalize-applied can h =
      finalized-applied (apply_configuration hw can_clock self.config self.tx t) can h

  module _ (p d : ℕ) (low : 1 ≤ self.config.timestamp.prescaler)
      (high : self.config.timestamp.prescaler ≤ 16)
      (nominal : prescaler self.config.nominal_timing can_clock nominal_bit_timing_ranges ≡ ok p)
      (phase : data_phase hw can_clock self.config.mode ≡ ok d) where
    -- What is left for the change of the mode.
    abbrev pub rest : Outcome (Unit {0}) × Trace RawMessage
    rest = set_init hw fuel false (applied_trace hw can_clock self.config p d t)

    finalize-run :
        finalize hw fuel can_clock self t
        ≡ bind_outcome rest (λ _. return (finalized (ready hw fuel can_clock self)))
    unfolding finalize finalize_by operational_mode
    finalize-run =
        let run =
          apply_configuration-run hw can_clock self.config self.tx p d t low high nominal phase in
        rw run refl

    -- The accesses of `finalize` end with those of the change of the mode.
    pub finalize-trace : (finalize hw fuel can_clock self t).1 ≡ rest.1
    finalize-trace =
        ap (λ (r : Outcome (Finalized g) × Trace RawMessage). r.1) finalize-run
        ∙ bind_outcome-trace rest (finalized (ready hw fuel can_clock self))

    finalize-ready :
        (can : Can g)
        → (finalize hw fuel can_clock self t).0 ≡ done (finalized can)
        → ready hw fuel can_clock self ≡ can
    finalize-ready can h =
        let e =
          bind_outcome-value rest (finalized (ready hw fuel can_clock self)) (finalized can)
            (ap (λ (r : Outcome (Finalized g) × Trace RawMessage). r.0) (sym finalize-run) ∙ h) in
        cc

module _ {g : Fugit} (hw : Hardware RawMessage) (fuel : ℕ) (can_clock : g.HertzU32) (self : Can g)
    (start : Register → ℕ) (held : Keeps hw start) (t : Trace RawMessage) where
  -- The word in CCCR after `finalize`.
  abbrev pub final_cccr : ℕ
  final_cccr = u32 (stored cccr (start cccr) (finalize hw fuel can_clock self t).1)

  finalize-bit :
      (p d : ℕ)
      → 1 ≤ self.config.timestamp.prescaler
      → self.config.timestamp.prescaler ≤ 16
      → prescaler self.config.nominal_timing can_clock nominal_bit_timing_ranges ≡ ok p
      → data_phase hw can_clock self.config.mode ≡ ok d
      → (i : ℕ) → i < 32
      → i ≢ 0
      → i ≢ 4
      → bit_reader i final_cccr
        ≡ bit_reader i (after hw can_clock self.config start held self.tx t cccr)
  finalize-bit p d low high nominal phase i small ne ne' =
      let T = applied_trace hw can_clock self.config p d t in
      let run =
        apply_configuration-run hw can_clock self.config self.tx p d t low high nominal phase in
      let trace = finalize-trace hw fuel can_clock self t p d low high nominal phase in
      bit_reader-test_bit i final_cccr
      ∙ (ap (λ (u : Trace RawMessage). test_bit (u32 (stored cccr (start cccr) u)) i) trace
          ∙ (set_init-keeps hw (start cccr) held.cccr_held i fuel false T small ne ne'
              ∙ (sym (bit_reader-test_bit i (u32 (stored cccr (start cccr) T)))
                  ∙ (bit_reader-u32 i (stored cccr (start cccr) T) small
                      ∙ ap
                          (λ (e : Ending hw can_clock self.config self.tx).
                            bit_reader i (stored cccr (start cccr) e.1))
                          (sym run)))))

  -- If `finalize` returns the bus, and if the registers that are modified read back what was written to them, the
  -- peripheral and the `tx` of the bus agree on the mode: FDOE is on exactly if `tx` accepts FD messages, and then
  -- BRSE is on exactly if `tx` accepts bit rate switching; otherwise BRSE stays.
  pub finalize-mode :
      (can : Can g)
      → (finalize hw fuel can_clock self t).0 ≡ done (finalized can)
      → (bit_reader 8 final_cccr ≡ is_fd can.tx.mode)
        × (bit_reader 9 final_cccr ≡ (
            if is_fd can.tx.mode
            then allows_switching can.tx.mode
            else bit_reader 9 (stored cccr (start cccr) t)))
  finalize-mode can ended =
      let a = finalize-applied hw fuel can_clock self t can ended in
      let (low, high, (p, nominal), (d, phase)) =
        apply_configuration-applied hw can_clock self.config self.tx a.0 t a.1 in
      let mode =
        apply_configuration-mode hw can_clock self.config start held self.tx t p d low high nominal
          phase in
      let same : ready hw fuel can_clock self ≡ can =
        finalize-ready hw fuel can_clock self t p d low high nominal phase can ended in
      let m : self.config.mode ≡ can.tx.mode = ap (λ (c : Can g). c.tx.mode) same in
      (
        finalize-bit p d low high nominal phase 8 (omega arith) (omega arith) (omega arith)
            ∙ (mode.2 ∙ ap is_fd m),
        finalize-bit p d low high nominal phase 9 (omega arith) (omega arith) (omega arith)
            ∙ (mode.3
                ∙ (ap
                      (λ (b : Bool).
                        if is_fd self.config.mode then allows_switching self.config.mode else b)
                      (bit_reader-u32 9 (stored cccr (start cccr) t) (omega arith))
                    ∙ ap
                        (λ (m : Mode g).
                          if is_fd m
                          then allows_switching m
                          else bit_reader 9 (stored cccr (start cccr) t))
                        m)),
      )
