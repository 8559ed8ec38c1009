-- ===== src/Can/Modes.antt =====
-- The busy-waits end, if the peripheral follows within a number of reads (mcan/src/reg.rs).
use mcan.Base.{
  ℕ, zero, suc, ◌<◌, ◌^◌, ◌≡◌, refl, Bool, true, false, not, ◌∷◌, arith, ◌∙◌, ap, sym, Bool-cases,
  inl, inr, bit_and,
}
use mcan.Bits.{test_bit, test_bit-bit_or, test_bit-bit_and, bit_not}
use mcan.Can.{same, wait, leave_power_down, set_init, configuration_mode, enable_cce}
use mcan.Reg.Block.{cccr}
use mcan.Reg.Field.{bit, set_bit, clear_bit, bit_reader, bit_reader_lem}
use mcan.Reg.Io.{Event, Trace, Hardware, done, answer}

module _ {M : Type 0} (hw : Hardware M) where
  -- The history after `n` reads of CCCR.
  abbrev pub polls : ℕ → Trace M → Trace M
  polls zero t = t
  polls (suc n) t = polls n (Event.read cccr (answer hw t cccr) ∷ t)

  -- Bit `target` of CCCR reads as bit `source` of the word that was written, after `delay` reads.
  abbrev pub Follows : ℕ → ℕ → ℕ → Type 0
  Follows delay source target =
      (t : Trace M) (w : ℕ)
      → test_bit (answer hw (polls delay (Event.write cccr w ∷ t)) cccr) target ≡ test_bit w source

  -- A wait ends with the first read that passes the test, if one among those of the fuel does.
  wait_lem :
      (test : ℕ → Bool) (fuel n : ℕ) (t : Trace M)
      → n < fuel
      → test (answer hw (polls n t) cccr) ≡ true
      → (v : ℕ) × (u : Trace M) × (wait hw test fuel t ≡ (done tt, Event.read cccr v ∷ u))
        × (test v ≡ true)
        × (v < 2 ^ 32)
  unfolding wait
  wait_lem test zero n t enough passes = absurd (omega arith)
  wait_lem test (suc fuel) zero t enough passes =
      (answer hw t cccr, t, ground (arith, passes), passes, omega arith)
  wait_lem test (suc fuel) (suc n) t enough passes = elim (Bool-cases (test (answer hw t cccr))) [
    | inl now ↦ (answer hw t cccr, t, ground (arith, now), now, omega arith)
    | inr later ↦
        let r =
          wait_lem test fuel n (Event.read cccr (answer hw t cccr) ∷ t) (omega arith) passes in
        (r.0, r.1, ground (arith, later, r.2), r.3, r.4)
  ]

  -- The word with which `set_init` writes INIT.
  bit-test : (value : Bool) (bits : ℕ) → test_bit (bit 0 value bits) 0 ≡ value
  unfolding bit bit_not
  bit-test true bits = ground (arith, test_bit-bit_or 0 (bit_and bits (bit_not 32 1)) 1)
  bit-test false bits = ground (
    arith,
    test_bit-bit_or 0 (bit_and bits (bit_not 32 1)) 0,
    test_bit-bit_and 0 bits (bit_not 32 1),
  )

  clear_bit-test : (bits : ℕ) → test_bit (clear_bit 4 bits) 4 ≡ false
  unfolding clear_bit bit_not
  clear_bit-test bits = ground (arith, test_bit-bit_and 4 bits (bit_not 32 16))

  -- `leave_power_down` ends.
  leave_power_down_lem :
      (delay fuel : ℕ) (t : Trace M)
      → delay < fuel
      → Follows delay 4 3
      → (u : Trace M) × (leave_power_down hw fuel t ≡ (done tt, u))
  unfolding leave_power_down
  leave_power_down_lem delay fuel t enough csa =
      let t' : Trace M =
        Event.write cccr (clear_bit 4 (answer hw t cccr))
        ∷ Event.read cccr (answer hw t cccr)
        ∷ t in
      let r =
        wait_lem (λ bits. not (bit_reader 3 bits)) fuel delay t' enough
          (ap not (
            bit_reader_lem 3 (answer hw (polls delay t') cccr) (omega arith)
            ∙ (csa _ (clear_bit 4 (answer hw t cccr)) ∙ clear_bit-test (answer hw t cccr)))) in
      (Event.read cccr r.0 ∷ r.1, r.2)

  same_self : (b : Bool) → same b b ≡ true
  same_self true = refl
  same_self false = refl

  same→≡ : (a b : Bool) → same a b ≡ true → a ≡ b
  same→≡ true b h = sym h
  same→≡ false b h = ground arith

  -- The rest of `set_init`: INIT is written and waited for.
  init_lem :
      (delay fuel : ℕ) (value : Bool) (t : Trace M)
      → delay < fuel
      → Follows delay 0 0
      → (v : ℕ) × (u : Trace M) × (wait hw
            (λ bits. same (bit_reader 0 bits) value)
            fuel
            (Event.write cccr (bit 0 value (answer hw t cccr))
              ∷ Event.read cccr (answer hw t cccr)
              ∷ t)
          ≡ (done tt, Event.read cccr v ∷ u))
        × (test_bit v 0 ≡ value)
  init_lem delay fuel value t enough init =
      let t' : Trace M =
        Event.write cccr (bit 0 value (answer hw t cccr))
        ∷ Event.read cccr (answer hw t cccr)
        ∷ t in
      let read : bit_reader 0 (answer hw (polls delay t') cccr) ≡ value =
        bit_reader_lem 0 (answer hw (polls delay t') cccr) (omega arith)
        ∙ (init _ (bit 0 value (answer hw t cccr)) ∙ bit-test value (answer hw t cccr)) in
      let r =
        wait_lem (λ bits. same (bit_reader 0 bits) value) fuel delay t' enough
          (ap (λ (b : Bool). same b value) read ∙ same_self value) in
      (r.0, r.1, r.2, sym (bit_reader_lem 0 r.0 r.4) ∙ same→≡ (bit_reader 0 r.0) value r.3)

  -- `set_init` ends, and its last access is a read of CCCR in which INIT is `value`, if INIT follows the
  -- INIT that was written, and CSA the CSR that was written, after fewer reads of CCCR than the fuel.
  pub set_init_lem :
      (delay fuel : ℕ) (value : Bool) (t : Trace M)
      → delay < fuel
      → Follows delay 0 0
      → Follows delay 4 3
      → (v : ℕ) × (u : Trace M) × (set_init hw fuel value t ≡ (done tt, Event.read cccr v ∷ u))
        × (test_bit v 0 ≡ value)
  unfolding set_init
  set_init_lem delay fuel true t enough init csa = init_lem delay fuel true t enough init
  set_init_lem delay fuel false t enough init csa =
      let p = leave_power_down_lem delay fuel t enough csa in
      let r = init_lem delay fuel false p.0 enough init in (r.0, r.1, ground (arith, p.1, r.2), r.3)

  set_bit-test : (bits : ℕ) → test_bit (set_bit 1 bits) 1 ≡ true
  unfolding set_bit
  set_bit-test bits = ground (arith, test_bit-bit_or 1 bits 2)

  -- `configuration_mode` ends, and its last access is a read of CCCR in which CCE is set, if INIT and CCE follow
  -- what was written after fewer reads of CCCR than the fuel.
  pub configuration_mode_lem :
      (delay fuel : ℕ) (t : Trace M)
      → delay < fuel
      → Follows delay 0 0
      → Follows delay 1 1
      → (v : ℕ) × (u : Trace M) × (configuration_mode hw fuel t ≡ (done tt, Event.read cccr v ∷ u))
        × (test_bit v 1 ≡ true)
  unfolding configuration_mode set_init enable_cce
  configuration_mode_lem delay fuel t enough init cce =
      let p = init_lem delay fuel true t enough init in
      let t1 : Trace M = Event.read cccr p.0 ∷ p.1 in
      let t2 : Trace M =
        Event.write cccr (set_bit 1 (answer hw t1 cccr))
        ∷ Event.read cccr (answer hw t1 cccr)
        ∷ t1 in
      let r =
        wait_lem (λ bits. bit_reader 1 bits) fuel delay t2 enough
          (bit_reader_lem 1 (answer hw (polls delay t2) cccr) (omega arith)
            ∙ (cce _ (set_bit 1 (answer hw t1 cccr)) ∙ set_bit-test (answer hw t1 cccr))) in
      (r.0, r.1, ground (arith, p.2, r.2), sym (bit_reader_lem 1 r.0 r.4) ∙ r.3)
