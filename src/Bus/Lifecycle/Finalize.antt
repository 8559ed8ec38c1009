-- ===== src/Bus/Lifecycle/Finalize.antt =====
-- Finalizing the configuration of the bus (mcan/src/bus.rs).
use mcan.Base.{ℕ, ◌≤◌, ◌<◌, ◌≡◌, true, false, ◌∷◌, arith}
use mcan.Bits.{test_bit}
use mcan.Bus.Lifecycle.{Can, finalized, finalize, finalize_initialized, finalize_by}
use mcan.Bus.Run.{data_phase, applied_trace, apply_configuration-run}
use mcan.Can.{operational_mode, initialization_mode}
use mcan.Can.Modes.{Follows, set_init_lem}
use mcan.Config.{Fugit, ok, nominal_bit_timing_ranges, prescaler}
use mcan.Message.Raw.{RawMessage}
use mcan.Reg.Block.{cccr}
use mcan.Reg.Io.{Event, Trace, Hardware, done}

module _ {g : Fugit} (hw : Hardware RawMessage) (fuel : ℕ) (can_clock : g.HertzU32)
    (self : Can g) where
  -- The bus with the mode of its configuration in `tx`.
  abbrev pub ready : Can g
  ready = record self { tx = record self.tx { mode = self.config.mode } }

  module _ (t : Trace RawMessage) (p d delay : ℕ) (low : 1 ≤ self.config.timestamp.prescaler)
      (high : self.config.timestamp.prescaler ≤ 16)
      (nominal : prescaler self.config.nominal_timing can_clock nominal_bit_timing_ranges ≡ ok p)
      (phase : data_phase hw can_clock self.config.mode ≡ ok d) (enough : delay < fuel)
      (init : Follows hw delay 0 0) (csa : Follows hw delay 4 3) where
    -- With all prescalers in range, and if INIT and CSA follow what was written after fewer reads of CCCR than the
    -- fuel, `finalize` ends with the bus, whose `tx` has the mode of the configuration, and its last access is a
    -- read of CCCR in which INIT is off: the bus is operational.
    pub finalize_lem :
        (v : ℕ) × (u : Trace RawMessage) × (finalize hw fuel can_clock self t
          ≡ (done (finalized ready), Event.read cccr v ∷ u))
        × (test_bit v 0 ≡ false)
    unfolding finalize finalize_by operational_mode
    finalize_lem =
        let run =
          apply_configuration-run hw can_clock self.config self.tx p d t low high nominal phase in
        let r =
          set_init_lem hw delay fuel false (applied_trace hw can_clock self.config p d t) enough
            init csa in
        (r.0, r.1, ground (arith, run, r.2), r.3)

    -- `finalize_initialized` ends with a read of CCCR in which INIT is on.
    pub finalize_initialized_lem :
        (v : ℕ) × (u : Trace RawMessage) × (finalize_initialized hw fuel can_clock self t
          ≡ (done (finalized ready), Event.read cccr v ∷ u))
        × (test_bit v 0 ≡ true)
    unfolding finalize_initialized finalize_by initialization_mode
    finalize_initialized_lem =
        let run =
          apply_configuration-run hw can_clock self.config self.tx p d t low high nominal phase in
        let r =
          set_init_lem hw delay fuel true (applied_trace hw can_clock self.config p d t) enough init
            csa in
        (r.0, r.1, ground (arith, run, r.2), r.3)
