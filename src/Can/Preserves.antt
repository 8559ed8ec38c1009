-- ===== src/Can/Preserves.antt =====
-- What holds of a history and is kept by the accesses to CCCR is kept by the mode changes (mcan/src/reg.rs).
use mcan.Base.{ℕ, zero, suc, Bool, true, false, not, ◌∷◌, Bool-cases, inl, inr, if◌then◌else◌}
use mcan.Can.{same, wait, leave_power_down, set_init}
use mcan.Reg.Block.{cccr}
use mcan.Reg.Field.{bit, clear_bit, bit_reader}
use mcan.Reg.Io.{
  Event, Trace, Hardware, Io, Outcome, done, panic, spin, answer, ◌>>=◌, ◌>>◌, bind_outcome, return,
  modify_reg,
}

module _ {M : Type 0} (hw : Hardware M) (P : Trace M → Type 0) where
  -- A program keeps `P`, however it ends.
  abbrev pub Preserves : {A : Type 0} → Io M A → Type 0
  Preserves m = (t : Trace M) → P t → P (m t).1

  bind_outcome-Preserves :
      {A B : Type 0} (r : Outcome A × Trace M) (f : A → Io M B)
      → P r.1
      → ((a : A) → Preserves (f a))
      → P (bind_outcome r f).1
  bind_outcome-Preserves (done a, t) f h k = k a t h
  bind_outcome-Preserves (panic, t) f h k = h
  bind_outcome-Preserves (spin, t) f h k = h

  Preserves-bind :
      {A B : Type 0} (m : Io M A) (f : A → Io M B)
      → Preserves m
      → ((a : A) → Preserves (f a))
      → Preserves (m >>= f)
  Preserves-bind m f km kf t h = bind_outcome-Preserves (m t) f (km t h) kf

  module _ (reads : (v : ℕ) (t : Trace M) → P t → P (Event.read cccr v ∷ t)) where
    Preserves-wait : (test : ℕ → Bool) (fuel : ℕ) → Preserves (wait hw test fuel)
    unfolding wait
    Preserves-wait test zero t h = h
    Preserves-wait test (suc fuel) t h =
        let next = reads (answer hw t cccr) t h in
        elim (Bool-cases (test (answer hw t cccr))) [
          | inl now ↦ rw now next
          | inr later ↦
              rw later (Preserves-wait test fuel (Event.read cccr (answer hw t cccr) ∷ t) next)
        ]

    module _ (csr : Preserves (modify_reg hw cccr (clear_bit 4)))
        (init : (value : Bool) → Preserves (modify_reg hw cccr (bit 0 value))) where
      Preserves-leave_power_down : (fuel : ℕ) → Preserves (leave_power_down hw fuel)
      unfolding leave_power_down
      Preserves-leave_power_down fuel =
          let test : ℕ → Bool = λ bits. not (bit_reader 3 bits) in
          Preserves-bind (modify_reg hw cccr (clear_bit 4)) (λ _. wait hw test fuel) csr
            (λ _. Preserves-wait test fuel)

      Preserves-first :
          (fuel : ℕ) (value : Bool)
          → Preserves (if not value then leave_power_down hw fuel else return tt)
      Preserves-first fuel true = λ t h. h
      Preserves-first fuel false = Preserves-leave_power_down fuel

      -- `set_init` keeps what its accesses to CCCR keep, however it ends.
      pub Preserves-set_init : (fuel : ℕ) (value : Bool) → Preserves (set_init hw fuel value)
      unfolding set_init
      Preserves-set_init fuel value =
          let test : ℕ → Bool = λ bits. same (bit_reader 0 bits) value in
          let write_init : Io M (Unit {0}) = modify_reg hw cccr (bit 0 value) in
          Preserves-bind (if not value then leave_power_down hw fuel else return tt)
            (λ _. write_init >> wait hw test fuel) (Preserves-first fuel value)
            (λ _.
              Preserves-bind write_init (λ _. wait hw test fuel) (init value)
                (λ _. Preserves-wait test fuel))
