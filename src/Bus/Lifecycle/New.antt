-- ===== src/Bus/Lifecycle/New.antt =====
-- Constructing the bus (mcan/src/bus.rs).
use mcan.Base.{ℕ, ◌<◌, ◌≡◌, true, if◌then◌else◌, ◌∷◌, Bool-cases, inl, inr, refl, not}
use mcan.Bits.{test_bit}
use mcan.Bus.Lifecycle.{created, memory_not_addressable, new, new_can, Can, Created}
use mcan.Bus.Ram.{apply_ram_config}
use mcan.Bus.Ram.Sections.{apply_ram_config-done}
use mcan.Can.Modes.{Follows, configuration_mode_lem}
use mcan.Config.{Fugit}
use mcan.Message.Raw.{RawMessage}
use mcan.MessageRam.{Capacities, IsLimited, is_addressable, size_of}
use mcan.Reg.Block.{cccr, ils, reset_value}
use mcan.Reg.Io.{
  Event, Trace, Hardware, done, Outcome, Io, panic, spin, bind_outcome, ◌>>◌, ◌>>=◌, return,
}
use mcan.Interrupt.Configuration as InterruptConfiguration
use mcan.Can.{configuration_mode}

module _ {g : Fugit} (hw : Hardware RawMessage) (fuel : ℕ) (c : Capacities) (limits : IsLimited c)
    (start eligible : ℕ) (bitrate : g.HertzU32) (t : Trace RawMessage) (delay : ℕ)
    (enough : delay < fuel) (init : Follows hw delay 0 0) (cce : Follows hw delay 1 1) where
  -- With capacities within their limits, `new` ends, if INIT and CCE follow what was written after fewer reads of
  -- CCCR than the fuel. It enters the configuration mode first, until a read of CCCR has CCE on. If the memory is
  -- not addressable, it fails there. Otherwise it configures the message RAM and ILS and returns the components,
  -- with the set of all interrupts.
  pub new_lem :
      (v : ℕ) × (u : Trace RawMessage) × (test_bit v 1 ≡ true)
      × (new {g = g} hw fuel c start eligible bitrate t ≡ (
          if is_addressable (size_of c) start eligible
          then (
            done (created (new_can c bitrate (record { interrupts = 0x3fff_ffff }))),
            Event.write ils 0 ∷ (apply_ram_config c start (Event.read cccr v ∷ u)).1,
          )
          else (done memory_not_addressable, Event.read cccr v ∷ u)))
  unfolding new InterruptConfiguration.new reset_value
  new_lem =
      let r = configuration_mode_lem hw delay fuel t enough init cce in
      (
        r.0,
        r.1,
        r.3,
        elim (Bool-cases (is_addressable (size_of c) start eligible)) [
          | inl fits ↦ rw (
            r.2,
            fits,
            apply_ram_config-done c limits start (Event.read cccr r.0 ∷ r.1) reset_value,
          )
          | inr off ↦ rw (r.2, off)
        ],
      )

module _ {g : Fugit} (hw : Hardware RawMessage) (fuel : ℕ) (c : Capacities) (limits : IsLimited c)
    (start eligible : ℕ) (bitrate : g.HertzU32) where
  -- `new` after the change of the mode.
  abbrev rest : Io RawMessage (Created g)
  rest =
      if not (is_addressable (size_of c) start eligible)
      then return memory_not_addressable
      else (apply_ram_config c start
          >> (InterruptConfiguration.new >>= λ interrupts.
              return (created (new_can c bitrate interrupts))))

  -- A bus that `new` returns has an addressable memory, and the message RAM is configured.
  abbrev IsConfigured : Outcome (Created g) × Trace RawMessage → Type 0
  IsConfigured r =
      (is_addressable (size_of c) start eligible ≡ true)
      × (u : Trace RawMessage) × (r.1 ≡ Event.write ils 0 ∷ (apply_ram_config c start u).1)

  rest-IsConfigured :
      (bus : Can g) (t : Trace RawMessage) → (rest t).0 ≡ done (created bus) → IsConfigured (rest t)
  unfolding InterruptConfiguration.new reset_value
  rest-IsConfigured bus t h = elim (Bool-cases (is_addressable (size_of c) start eligible)) [
    | inl fits ↦ (fits, t, rw (fits, apply_ram_config-done c limits start t reset_value) refl)
    | inr off ↦ let e : (rest t).0 ≡ done memory_not_addressable = rw off refl in absurd cc
  ]

  new-from :
      (r : Outcome (Unit {0}) × Trace RawMessage) (bus : Can g)
      → (bind_outcome r (λ _. rest)).0 ≡ done (created bus)
      → IsConfigured (bind_outcome r (λ _. rest))
  new-from (done tt, t) bus h = rest-IsConfigured bus t h
  new-from (panic, t) bus h = absurd cc
  new-from (spin, t) bus h = absurd cc

  pub new-IsConfigured :
      (bus : Can g) (t : Trace RawMessage)
      → (new {g = g} hw fuel c start eligible bitrate t).0 ≡ done (created bus)
      → IsConfigured (new {g = g} hw fuel c start eligible bitrate t)
  unfolding new
  new-IsConfigured bus t h = new-from (configuration_mode hw fuel t) bus h
