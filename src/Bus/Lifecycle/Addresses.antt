-- ===== src/Bus/Lifecycle/Addresses.antt =====
-- Where the peripheral finds the sections of the memory, from `new` to `finalize` (mcan/src/bus.rs).
use mcan.Base.{ℕ, ◌+◌, ◌%◌, ◌^◌, ◌<◌, ◌≡◌, refl, Bool, false, ◌∷◌, arith, ◌∙◌, ap, sym}
use mcan.Bits.{u32}
use mcan.Bus.{CanConfig}
use mcan.Bus.Configured.{apply_configuration-fifos}
use mcan.Bus.Lifecycle.{Can, created, finalized, new, finalize}
use mcan.Bus.Lifecycle.Agreement.{finalize-applied, finalize-trace}
use mcan.Bus.Success.{apply_configuration-applied}
use mcan.Bus.Ram.Sections as Sections
use mcan.Base.{subst}
use mcan.Bus.Ram.{apply_ram_config}
use mcan.Bus.Ram.Sections.{
  start_register, apply_ram_config-done, apply_ram_config-addresses, start_register-lt,
}
use mcan.Bus.Registers.{Keeps, contents}
use mcan.Config.{Fugit}
use mcan.Message.Raw.{RawMessage}
use mcan.MessageRam.{
  Capacities, IsLimited, Section, offset, section_bytes, filters_standard, filters_extended,
  rx_fifo_0, rx_fifo_1, rx_dedicated_buffers, tx_event_fifo, tx_buffers,
}
use mcan.Reg.Block.{Register, Register-discrete, ils, cccr}
use mcan.Reg.Field.{mask, field_reader}
use mcan.Reg.Io.{Event, Trace, Hardware, done}
use mcan.Reg.Stored.{stored}
use mcan.Base.{◌≤◌}
use mcan.Bus.{apply_configuration}
use mcan.Bus.Run.{
  data_phase, timing_trace, mode_trace, rest_trace, applied_trace, Ending, apply_configuration-run,
}
use mcan.Can.{set_init}
use mcan.Can.Preserves.{Preserves-set_init}
use mcan.Config.{Mode, classic, fd, ok, nominal_bit_timing_ranges, prescaler}
use mcan.Reg.Block.{sidfc, xidfc, rxbc, rxf0_c, rxf1_c, txbc, txefc}
use mcan.Reg.Io.{answer, modify_reg}
use mcan.TxBuffers.{Tx}
use mcan.Bus.Lifecycle.New.{new-IsConfigured}

-- CCCR is no register of a section.
not_cccr :
    (s : Section) (v w : ℕ) (t : Trace RawMessage)
    → stored (start_register s) w (Event.write cccr v ∷ t) ≡ stored (start_register s) w t
unfolding Register-discrete
not_cccr filters_standard v w t = refl
not_cccr filters_extended v w t = refl
not_cccr rx_fifo_0 v w t = refl
not_cccr rx_fifo_1 v w t = refl
not_cccr rx_dedicated_buffers v w t = refl
not_cccr tx_event_fifo v w t = refl
not_cccr tx_buffers v w t = refl

not_ils :
    (s : Section) (v w : ℕ) (t : Trace RawMessage)
    → stored (start_register s) w (Event.write ils v ∷ t) ≡ stored (start_register s) w t
unfolding Register-discrete
not_ils filters_standard v w t = refl
not_ils filters_extended v w t = refl
not_ils rx_fifo_0 v w t = refl
not_ils rx_fifo_1 v w t = refl
not_ils rx_dedicated_buffers v w t = refl
not_ils tx_event_fifo v w t = refl
not_ils tx_buffers v w t = refl

module _ (hw : Hardware RawMessage) (fuel : ℕ) (s : Section) (w : ℕ) where
  set_init-register :
      (value : Bool) (t : Trace RawMessage)
      → stored (start_register s) w (set_init hw fuel value t).1 ≡ stored (start_register s) w t
  unfolding modify_reg
  set_init-register value t =
      Preserves-set_init hw (λ u. stored (start_register s) w u ≡ stored (start_register s) w t)
        (λ v u h. h) (λ u h. not_cccr s _ w (Event.read cccr (answer hw u cccr) ∷ u) ∙ h)
        (λ b u h. not_cccr s _ w (Event.read cccr (answer hw u cccr) ∷ u) ∙ h) fuel value t refl

module _ {g : Fugit} (hw : Hardware RawMessage) (f_can : g.HertzU32) (config : CanConfig g)
    (old : Register → ℕ) where
  -- The registers that `apply_configuration` does not write.
  untouched :
      (m : Mode g) (d p : ℕ) (t : Trace RawMessage)
      → let T =
          rest_trace hw f_can config
            (mode_trace hw f_can config d m (timing_trace hw f_can config p t)) in
        (contents old T sidfc ≡ contents old t sidfc)
        × (contents old T xidfc ≡ contents old t xidfc)
        × (contents old T rxbc ≡ contents old t rxbc)
  unfolding Register-discrete
  untouched classic d p t = (refl, refl, refl)
  untouched (fd allow timing) d p t = (refl, refl, refl)

  module _ (held : Keeps hw old) (tx : Tx g) (t : Trace RawMessage) (p d : ℕ)
      (low : 1 ≤ config.timestamp.prescaler) (high : config.timestamp.prescaler ≤ 16)
      (nominal : prescaler config.nominal_timing f_can nominal_bit_timing_ranges ≡ ok p)
      (phase : data_phase hw f_can config.mode ≡ ok d) where
    -- The start address of a section in its register.
    abbrev start_of : ℕ → ℕ
    start_of w = field_reader 0 (mask 16) w

    abbrev final : Trace RawMessage
    final = applied_trace hw f_can config p d t

    -- A register that is modified, once it is known that the field stays.
    modified-start :
        (r : Register)
        → contents old t r < 2 ^ 32
        → start_of (contents old (apply_configuration hw f_can config tx t).1 r)
          ≡ start_of (u32 (contents old t r))
        → start_of (contents old final r) ≡ start_of (contents old t r)
    modified-start r fits e =
        let run = apply_configuration-run hw f_can config tx p d t low high nominal phase in
        let word : u32 (contents old t r) ≡ contents old t r = omega (arith, fits) in
        ap (λ (x : Ending hw f_can config tx). start_of (contents old x.1 r)) (sym run)
        ∙ (e ∙ ap start_of word)

    -- `apply_configuration` keeps the start addresses.
    pub apply_configuration-start :
        (s : Section)
        → contents old t (start_register s) < 2 ^ 32
        → start_of (contents old final (start_register s))
          ≡ start_of (contents old t (start_register s))
    apply_configuration-start filters_standard fits = ap start_of (untouched config.mode d p t).0
    apply_configuration-start filters_extended fits = ap start_of (untouched config.mode d p t).1
    apply_configuration-start rx_dedicated_buffers fits =
        ap start_of (untouched config.mode d p t).2
    apply_configuration-start rx_fifo_0 fits =
        let f =
          apply_configuration-fifos hw f_can config old held tx t p d low high nominal phase in
        modified-start rxf0_c fits f.0.2
    apply_configuration-start rx_fifo_1 fits =
        let f =
          apply_configuration-fifos hw f_can config old held tx t p d low high nominal phase in
        modified-start rxf1_c fits f.1.2
    apply_configuration-start tx_buffers fits =
        let f =
          apply_configuration-fifos hw f_can config old held tx t p d low high nominal phase in
        modified-start txbc fits f.3
    apply_configuration-start tx_event_fifo fits =
        let f =
          apply_configuration-fifos hw f_can config old held tx t p d low high nominal phase in
        modified-start txefc fits f.7

module _ {g : Fugit} (hw : Hardware RawMessage) (fuel : ℕ) (c : Capacities) (limits : IsLimited c)
    (start eligible : ℕ) (bitrate can_clock : g.HertzU32) (old : Register → ℕ) (held : Keeps hw old)
    (t : Trace RawMessage) (config : CanConfig g) (bus : Can g) where
  -- The history after `new`, and after `finalize` of the bus with the configuration `config`.
  abbrev pub constructed : Trace RawMessage
  constructed = (new {g = g} hw fuel c start eligible bitrate t).1

  abbrev pub reconfigured : Can g
  reconfigured = record bus { config = config }

  abbrev pub end : Trace RawMessage
  end = (finalize hw fuel can_clock reconfigured constructed).1

  -- If the registers that are modified read back what was written to them, the capacities are within their limits
  -- and the eligible region starts at a multiple of 64 KiB: once `new` has returned a bus, and `finalize` has
  -- returned it with any configuration, the start address in the register of each section of the message RAM that
  -- is not empty is, from there, exactly where this section lies in the memory.
  pub new-finalize-addresses :
      (can : Can g) (s : Section)
      → (new {g = g} hw fuel c start eligible bitrate t).0 ≡ done (created bus)
      → (finalize hw fuel can_clock reconfigured constructed).0 ≡ done (finalized can)
      → eligible % 2 ^ 16 ≡ 0
      → 0 < section_bytes c s
      → eligible + field_reader 0 (mask 16) (contents old end (start_register s))
        ≡ start + offset c s
  new-finalize-addresses can s is_created is_finalized aligned full =
      let (fits, u, trace) =
        new-IsConfigured hw fuel c limits start eligible bitrate bus t is_created in
      let r = start_register s in
      let ram : contents old constructed r ≡ Sections.after c limits start u old r =
        ap (λ (T : Trace RawMessage). contents old T r) trace
        ∙ not_ils s 0 (old r) (apply_ram_config c start u).1 in
      let a = finalize-applied hw fuel can_clock reconfigured constructed can is_finalized in
      let (low, high, (p, nominal), (d, phase)) =
        apply_configuration-applied hw can_clock config bus.tx a.0 constructed a.1 in
      let last : contents old end r
          ≡ contents old (applied_trace hw can_clock config p d constructed) r =
        ap (λ (T : Trace RawMessage). contents old T r)
          (finalize-trace hw fuel can_clock reconfigured constructed p d low high nominal phase)
        ∙ set_init-register hw fuel s (old r) false
            (applied_trace hw can_clock config p d constructed) in
      let small : contents old constructed r < 2 ^ 32 =
        subst (λ (w : ℕ). w < 2 ^ 32) (sym ram) (start_register-lt c limits start u old s) in
      let kept =
        apply_configuration-start hw can_clock config old held bus.tx constructed p d low high
          nominal phase s small in
      let there = apply_ram_config-addresses c limits start u old eligible s fits aligned full in
      ap (λ (w : ℕ). eligible + field_reader 0 (mask 16) w) last
      ∙ (ap (λ (w : ℕ). eligible + w) (kept ∙ ap (field_reader 0 (mask 16)) ram) ∙ there.1)
