-- ===== src/Config/Prescaler.antt =====
-- The prescaler gives the bit rate exactly (mcan/src/config.rs).
use mcan.Base.{
  ℕ, suc, ◌-◌, ◌*◌, ◌/◌, ◌%◌, ◌^◌, ◌<◌, ◌≡◌, true, arith, none, Option-cases, inl, inr, ℕ_discrete,
  Bool-cases, sym, ◌∙◌, ap,
}
use mcan.Config.{
  Fugit, contains, BitTimingRanges, BitTiming, ok, check, checked_rem, in_range, divide, prescaler,
  time_quanta_per_bit,
}
use native.Mathlib.Nat.{div-add-mod, mul-div_cancel_left}

module _ {g : Fugit} (self : BitTiming g) (f_can : g.HertzU32) (valid : BitTimingRanges) where
  -- The time quanta per second that the bit rate asks for.
  abbrev pub quanta : ℕ
  quanta = g.to_hz self.bitrate * time_quanta_per_bit self

  in_range-ok :
      (n p : ℕ)
      → valid.prescaler.last < 2 ^ 16
      → in_range {g = g} valid n ≡ ok p
      → (p ≡ n) × (contains valid.prescaler p ≡ true)
  unfolding in_range contains
  in_range-ok n p small h = elim (Bool-cases (contains valid.prescaler n)) [
    | inl inside ↦ ground (arith, inside)
    | inr outside ↦ ground (arith, outside)
  ]

  divide-ok :
      (f_q : g.HertzU32) (p : ℕ)
      → valid.prescaler.last < 2 ^ 16
      → divide self f_can valid f_q ≡ ok p
      → (g.to_hz f_can ≡ g.to_hz f_q * p) × (contains valid.prescaler p ≡ true)
  unfolding divide checked_rem
  divide-ok f_q p small h = elim (ℕ_discrete (g.to_hz f_q) 0) [
    | yes z ↦ absurd (ground (arith, h, z))
    | no nz ↦ elim (ℕ_discrete (g.to_hz f_can % g.to_hz f_q) 0) [
      | yes z ↦
          let r =
            in_range-ok (g.to_hz f_can / g.to_hz f_q) p small
              (ground (arith, h, z, g.div_lem f_can f_q (omega arith))) in
          (
            omega (
              arith,
              z,
              div-add-mod (g.to_hz f_can) (g.to_hz f_q),
              ap (λ (x : ℕ). g.to_hz f_q * x) r.0,
            ),
            r.1,
          )
      | no nz' ↦
          let e : g.to_hz f_can % g.to_hz f_q ≡ suc (g.to_hz f_can % g.to_hz f_q - 1) =
            omega arith in
          absurd (ground (arith, h, e))
    ]
  ]

  -- A prescaler that is returned is exact and in range: the timing passes the check, and the peripheral's
  -- clock is the bit rate times the time quanta per bit times the prescaler.
  pub prescaler-ok :
      (p : ℕ)
      → valid.prescaler.last < 2 ^ 16
      → prescaler self f_can valid ≡ ok p
      → (check self valid ≡ none)
        × (contains valid.prescaler p ≡ true)
        × (g.to_hz f_can ≡ quanta * p)
  unfolding prescaler
  prescaler-ok p small h = elim (Option-cases (check self valid)) [
    | inr e ↦ absurd (ground (arith, h, e.1))
    | inl c ↦ elim (Option-cases (g.mul self.bitrate (time_quanta_per_bit self))) [
      | inl e ↦ absurd (ground (arith, h, e, c))
      | inr q ↦
          let r = divide-ok q.0 p small (ground (arith, h, q.1, c)) in
          (
            c,
            r.1,
            r.0
                ∙ ap (λ (x : ℕ). x * p)
                    (g.mul-exact self.bitrate q.0 (time_quanta_per_bit self) q.1),
          )
    ]
  ]

  in_range-contains :
      (n : ℕ)
      → valid.prescaler.last < 2 ^ 16
      → contains valid.prescaler n ≡ true
      → in_range {g = g} valid n ≡ ok n
  unfolding in_range contains
  in_range-contains n small inside = ground (arith, inside)

  divide-exact :
      (f_q : g.HertzU32) (p : ℕ)
      → valid.prescaler.last < 2 ^ 16
      → 0 < g.to_hz f_q
      → g.to_hz f_can ≡ g.to_hz f_q * p
      → contains valid.prescaler p ≡ true
      → divide self f_can valid f_q ≡ ok p
  unfolding divide checked_rem
  divide-exact f_q p small positive exact inside =
      let quotient : g.to_hz f_can / g.to_hz f_q ≡ p =
        ap (λ (x : ℕ). x / g.to_hz f_q) exact ∙ mul-div_cancel_left p positive in
      let rest : g.to_hz f_can % g.to_hz f_q ≡ 0 = omega (
        arith,
        div-add-mod (g.to_hz f_can) (g.to_hz f_q),
        exact,
        ap (λ (x : ℕ). g.to_hz f_q * x) quotient,
      ) in
      ground (arith, rest, g.div_lem f_can f_q positive, quotient, in_range-contains p small inside)

  -- Every prescaler that is exact and in range is found: if the timing passes the check, the bit rate is
  -- not 0 and its product with the time quanta per bit fits a `u32`, and the peripheral's clock is that
  -- product times a prescaler in range, then this prescaler is returned.
  pub prescaler-exact :
      (p : ℕ)
      → valid.prescaler.last < 2 ^ 16
      → check self valid ≡ none
      → 0 < quanta
      → quanta < 2 ^ 32
      → g.to_hz f_can ≡ quanta * p
      → contains valid.prescaler p ≡ true
      → prescaler self f_can valid ≡ ok p
  unfolding prescaler
  prescaler-exact p small c positive fits exact inside =
      let q = g.mul-fits self.bitrate (time_quanta_per_bit self) fits in
      let e = g.mul-exact self.bitrate q.0 (time_quanta_per_bit self) q.1 in
      let d =
        divide-exact q.0 p small (omega (arith, e)) (exact ∙ sym (ap (λ (x : ℕ). x * p) e))
          inside in
      ground (arith, c, q.1, d)
