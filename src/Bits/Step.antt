-- ===== src/Bits/Step.antt =====
-- The last bit of `&` and `|`, and the bits before it.
use Prim.Native.Nat.{digits, bitwise, bit_and-bitwise, bit_or-bitwise}
use mcan.Base.{
  ℕ, zero, suc, ◌+◌, ◌*◌, ◌/◌, ◌%◌, ◌≤◌, bit_and, bit_or, min, max, ◌≡◌, refl, sym, arith, ◌∙◌, ap,
  ◌-◌,
}

module _ (rest : ℕ → ℕ) (op : ℕ → ℕ → ℕ) where
  -- With 0 on the left, any fuel gives what is left on the right.
  digits-zero : (fuel y : ℕ) → digits rest op fuel 0 y ≡ rest y
  digits-zero zero y = refl
  digits-zero (suc fuel) y = refl

  -- Fuel from the left number on is enough, so one more changes nothing.
  digits-more : (x fuel y : ℕ) → x ≤ fuel → digits rest op (suc fuel) x y ≡ digits rest op fuel x y
  digits-more zero fuel y enough = sym (digits-zero fuel y)
  digits-more (suc x) zero y enough = absurd (omega arith)
  digits-more (suc x) (suc fuel) y enough = rw (digits-more (suc x / 2) fuel (y / 2) (omega arith))

  -- As much fuel as the left number is as good as more.
  digits-least : (extra x y : ℕ) → digits rest op (extra + x) x y ≡ bitwise rest op x y
  digits-least zero x y = let e : zero + x ≡ x = omega arith in rw e
  digits-least (suc extra) x y =
      let e : suc extra + x ≡ suc (extra + x) = omega arith in
      rw e (digits-more x (extra + x) y (omega arith) ∙ digits-least extra x y)

  bitwise-div :
      (x y : ℕ)
      → bitwise rest op (suc x) y ≡ op (suc x % 2) (y % 2) + 2 * bitwise rest op (suc x / 2) (y / 2)
  bitwise-div x y =
      let half = suc x / 2 in
      let e : x ≡ x - half + half = omega arith in
      omega (
        arith,
        ap (λ (fuel : ℕ). digits rest op fuel half (y / 2)) e,
        digits-least (x - half) half (y / 2),
      )

pub bit_and_step : (x y : ℕ) → bit_and x y ≡ min (x % 2) (y % 2) + 2 * bit_and (x / 2) (y / 2)
bit_and_step zero y = simp bit_and-bitwise (omega arith)
bit_and_step (suc x) y = simp bit_and-bitwise (bitwise-div (λ _. 0) min x y)

pub bit_or_step : (x y : ℕ) → bit_or x y ≡ max (x % 2) (y % 2) + 2 * bit_or (x / 2) (y / 2)
bit_or_step zero y = simp bit_or-bitwise (omega arith)
bit_or_step (suc x) y = simp bit_or-bitwise (bitwise-div (λ b. b) max x y)
