-- ===== src/Can.antt =====
-- Changing the mode of the peripheral: `reg::Can` (mcan/src/reg.rs) and the calls of `Aux` that pass it on
-- (mcan/src/bus.rs). In CCCR, INIT is bit 0, CCE bit 1, CSA bit 3 and CSR bit 4.
pub mod Modes
pub mod Preserves
pub mod Keeps
use mcan.Base.{ℕ, zero, suc, Bool, true, false, not, if◌then◌else◌}
use mcan.Reg.Block.{Register, cccr}
use mcan.Reg.Field.{bit, set_bit, clear_bit, bit_reader}
use mcan.Reg.Io.{Hardware, Io, Outcome, spin, ◌>>=◌, ◌>>◌, return, write_reg, read_reg, modify_reg}

-- `a == b` on `bool`
abbrev pub same : Bool → Bool → Bool
same true b = b
same false b = not b

module _ {M : Type 0} (hw : Hardware M) where
  -- `while !test(self.cccr.read()) {}`, on fuel.
  unfoldable pub wait : (ℕ → Bool) → ℕ → Io M (Unit {0})
  unfolding read_reg
  wait test zero t = (spin, t)
  wait test (suc fuel) t =
      (read_reg hw cccr >>= λ bits. elim (test bits) [ true ↦ return tt | false ↦ wait test fuel ])
        t

  -- The part of `set_init` that leaves the power down mode.
  unfoldable pub leave_power_down : ℕ → Io M (Unit {0})
  unfolding modify_reg clear_bit wait bit_reader
  leave_power_down fuel = do
    modify_reg hw cccr (clear_bit 4)
    wait (λ bits. not (bit_reader 3 bits)) fuel

  unfoldable pub set_init : ℕ → Bool → Io M (Unit {0})
  unfolding leave_power_down modify_reg bit wait bit_reader
  set_init fuel value =
      (if not value then leave_power_down fuel else return tt)
      >> (modify_reg hw cccr (bit 0 value) >> wait (λ bits. same (bit_reader 0 bits) value) fuel)

  unfoldable pub enable_cce : ℕ → Io M (Unit {0})
  unfolding modify_reg set_bit wait bit_reader
  enable_cce fuel = do modify_reg hw cccr (set_bit 1); wait (λ bits. bit_reader 1 bits) fuel

  unfoldable pub configuration_mode : ℕ → Io M (Unit {0})
  unfolding set_init enable_cce
  configuration_mode fuel = set_init fuel true >> enable_cce fuel

  unfoldable pub initialization_mode : ℕ → Io M (Unit {0})
  unfolding set_init
  initialization_mode fuel = set_init fuel true

  unfoldable pub operational_mode : ℕ → Io M (Unit {0})
  unfolding set_init
  operational_mode fuel = set_init fuel false

  unfoldable pub is_operational : Io M Bool
  unfolding read_reg bit_reader
  is_operational = read_reg hw cccr >>= λ bits. return (not (bit_reader 0 bits))

  unfoldable pub is_ready_for_power_off : Io M Bool
  unfolding read_reg bit_reader
  is_ready_for_power_off = read_reg hw cccr >>= λ bits. return (bit_reader 3 bits)

unfoldable pub power_down_mode : {M : Type 0} → Io M (Unit {0})
unfolding write_reg set_bit
power_down_mode = write_reg cccr (set_bit 4)
