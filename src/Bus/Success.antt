-- ===== src/Bus/Success.antt =====
-- What it says of a configuration that `apply_configuration` returns `Ok` (mcan/src/bus.rs).
use mcan.Base.{ℕ, ◌≤◌, ◌≡◌, refl, Bool, true, false, arith, ◌∙◌, sym, ap, ◌⊎◌, inl, inr}
use mcan.Bus.{apply_configuration, apply_mode, CanConfig, Applied, applied, failed}
use mcan.Bus.Run.{data_phase, timing_trace, guarded, Ending}
use mcan.Config.{
  Fugit, Mode, classic, fd, BitTimingError, Result, ok, err, panic, contains,
  nominal_bit_timing_ranges, prescaler,
}
use mcan.Message.Raw.{RawMessage}
use mcan.Reg.Io.{Hardware, Trace, Outcome, done}
use mcan.Reg.Io as Io
use mcan.TxBuffers.{Tx}

-- A result is a prescaler or not.
abbrev pub IsFound : {g : Fugit} → Result g → Type 0
IsFound r = (p : ℕ) × (r ≡ ok p)

pub Result-cases :
    {g : Fugit} (r : Result g) → IsFound r ⊎ (((e : BitTimingError g) × (r ≡ err e)) ⊎ (r ≡ panic))
Result-cases (ok p) = inl (p, refl)
Result-cases (err e) = inr (inl (e, refl))
Result-cases panic = inr (inr refl)

module _ {g : Fugit} (hw : Hardware RawMessage) (f_can : g.HertzU32) (config : CanConfig g)
    (tx : Tx g) where
  -- Whether a call ends with `Ok`.
  abbrev is_ok : Outcome (Applied g × Tx g) → Bool
  is_ok (done (applied, tx')) = true
  is_ok (done (failed e, tx')) = false
  is_ok Io.panic = false
  is_ok Io.spin = false

  mode-IsFound :
      (m : Mode g) (t : Trace RawMessage)
      → is_ok (apply_mode hw f_can config tx m t).0 ≡ true
      → IsFound (data_phase hw f_can m)
  unfolding apply_mode
  mode-IsFound classic t h = (0, refl)
  mode-IsFound (fd allow timing) t h = elim (Result-cases (data_phase hw f_can (fd allow timing))) [
    | inl found ↦ found
    | inr (inl bad) ↦ absurd (ground (arith, h, bad.1))
    | inr (inr bad) ↦ absurd (ground (arith, h, bad))
  ]

  -- All prescalers of a configuration that is applied are in range.
  pub apply_configuration-applied :
      (tx' : Tx g) (t : Trace RawMessage)
      → (apply_configuration hw f_can config tx t).0 ≡ done (applied, tx')
      → (1 ≤ config.timestamp.prescaler)
        × (config.timestamp.prescaler ≤ 16)
        × IsFound (prescaler config.nominal_timing f_can nominal_bit_timing_ranges)
        × IsFound (data_phase hw f_can config.mode)
  unfolding apply_configuration contains
  apply_configuration-applied tx' t h =
      elim (Result-cases (prescaler config.nominal_timing f_can nominal_bit_timing_ranges)) [
        | inl found ↦
            let low : 1 ≤ config.timestamp.prescaler = ground (arith, h) in
            let high : config.timestamp.prescaler ≤ 16 = ground (arith, h) in
            let T = timing_trace hw f_can config found.0 t in
            let e : is_ok (apply_mode hw f_can config tx config.mode T).0 ≡ true =
              ap (λ (r : Ending hw f_can config tx). is_ok r.0)
                (sym (guarded hw f_can config tx found.0 t low high found.1))
              ∙ ap is_ok h in
            (low, high, found, mode-IsFound config.mode T e)
        | inr (inl bad) ↦ absurd (ground (arith, h, bad.1))
        | inr (inr bad) ↦ absurd (ground (arith, h, bad))
      ]
