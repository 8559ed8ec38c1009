-- ===== src/Bits/Word.antt =====
-- Unsigned integers of Rust's fixed widths, over the native numbers.
use mcan.Base.{
  ℕ, zero, suc, ◌+◌, ◌-◌, ◌*◌, ◌/◌, ◌%◌, ◌^◌, ◌≤◌, ◌<◌, bit_and, ◌≡◌, arith, Bool, ◌&&◌, not, ltb,
  leb, ◌==◌, ap, sym, ◌∙◌, dec_lt,
}
use mcan.Bits.Test.{test_bit, test_bit-zero, bit_and-pow, bit_not, test_bit-bit_not, test_bit-high}
use native.Mathlib.Nat.{
  pow-suc, one-le-pow, div-div-eq-div-mul, mod-eq-sub-div-mul, div-mul-le_self,
}

-- `as u8`, `as u16`, `as u32`
abbrev pub u8 : ℕ → ℕ
u8 n = n % 2 ^ 8

abbrev pub u16 : ℕ → ℕ
u16 n = n % 2 ^ 16

abbrev pub u32 : ℕ → ℕ
u32 n = n % 2 ^ 32

infixl 68 ◌<<<◌ ◌>>>◌
-- `x << k` on `u32`, for `k < 32`.
abbrev pub ◌<<<◌ : ℕ → ℕ → ℕ
x <<< k = x * 2 ^ k % 2 ^ 32

abbrev pub ◌>>>◌ : ℕ → ℕ → ℕ
x >>> k = x / 2 ^ k

-- `x & (1 << i) != 0`, the test that the code makes of one flag of a `u32`.
unfoldable pub has_flag : ℕ → ℕ → Bool
has_flag x i = not (bit_and x (1 <<< i) == 0)

pow-lt : (i k : ℕ) → i < k → 2 ^ i < 2 ^ k
pow-lt i zero h = absurd (omega arith)
pow-lt zero (suc k) h = omega (arith, pow-suc 2 k, one-le-pow k 2)
pow-lt (suc i) (suc k) h = omega (arith, pow-suc 2 i, pow-suc 2 k, pow-lt i k (omega arith))

pub pow-le : (i k : ℕ) → i ≤ k → 2 ^ i ≤ 2 ^ k
pow-le i zero h = let e : i ≡ 0 = omega arith in rw e (omega arith)
pow-le zero (suc k) h = omega (arith, one-le-pow (suc k) 2)
pow-le (suc i) (suc k) h = omega (arith, pow-suc 2 i, pow-suc 2 k, pow-le i k (omega arith))

-- A remainder by a smaller power fits.
pub mod_pow-lt : (x i k : ℕ) → i ≤ k → x % 2 ^ i < 2 ^ k
mod_pow-lt x i k h = omega (arith, pow-le i k h, one-le-pow i 2)

pub one-shl : (i : ℕ) → i < 32 → 1 <<< i ≡ 2 ^ i
one-shl i h = omega (arith, pow-lt i 32 h)

-- In range, the test reads the bit.
pub has_flag_lem : (x i : ℕ) → i < 32 → has_flag x i ≡ test_bit x i
unfolding has_flag
has_flag_lem x i h = rw (one-shl i h, bit_and-pow i x) (ground (arith, one-le-pow i 2))

pub double_pow : (k x : ℕ) → x * 2 ^ suc k ≡ 2 * (x * 2 ^ k)
double_pow k x = omega (arith, ap (λ (t : ℕ). x * t) (pow-suc 2 k))

halve_div : (k x : ℕ) → x / 2 ^ suc k ≡ x / 2 / 2 ^ k
halve_div k x =
    ap (λ (t : ℕ). x / t) (omega (arith, pow-suc 2 k)) ∙ sym (div-div-eq-div-mul x 2 (2 ^ k))

halve_mod : (k x : ℕ) → x % 2 ^ suc k ≡ 2 * (x / 2 % 2 ^ k) + x % 2
halve_mod k x = omega (
  arith,
  halve_div k x,
  double_pow k (x / 2 ^ suc k),
  mod-eq-sub-div-mul x (2 ^ suc k),
  div-mul-le_self x (2 ^ suc k),
  div-mul-le_self (x / 2) (2 ^ k),
  mod-eq-sub-div-mul (x / 2) (2 ^ k),
  ap (λ (t : ℕ). t * 2 ^ k) (halve_div k x),
)

pub test_bit-mul_pow : (k i x : ℕ) → test_bit (x * 2 ^ k) i ≡ (leb k i && test_bit x (i - k))
test_bit-mul_pow zero i x =
    let e : x * 1 ≡ x = omega arith in let e' : i - 0 ≡ i = omega arith in rw (e, e') (ground arith)
test_bit-mul_pow (suc k) zero x = ground (arith, double_pow k x)
test_bit-mul_pow (suc k) (suc i) x =
    let half : x * 2 ^ suc k / 2 ≡ x * 2 ^ k = omega (arith, double_pow k x) in
    let e : suc i - suc k ≡ i - k = omega arith in
    rw (half, e) (ground (arith, test_bit-mul_pow k i x))

pub test_bit-shr : (k i x : ℕ) → test_bit (x / 2 ^ k) i ≡ test_bit x (i + k)
test_bit-shr zero i x =
    let e : x / 1 ≡ x = omega arith in let e' : i + 0 ≡ i = omega arith in rw (e, e')
test_bit-shr (suc k) i x =
    let e : x / 2 ^ suc k ≡ x / 2 / 2 ^ k = halve_div k x in
    let e' : i + suc k ≡ suc (i + k) = omega arith in rw (e, e') (test_bit-shr k i (x / 2))

pub test_bit-mod : (k i x : ℕ) → test_bit (x % 2 ^ k) i ≡ (ltb i k && test_bit x i)
test_bit-mod zero i x = let e : x % 1 ≡ 0 = omega arith in rw e (ground (arith, test_bit-zero i))
test_bit-mod (suc k) zero x = ground (arith, halve_mod k x)
test_bit-mod (suc k) (suc i) x =
    let half : x % 2 ^ suc k / 2 ≡ x / 2 % 2 ^ k = omega (arith, halve_mod k x) in
    rw half (ground (arith, test_bit-mod k i (x / 2)))

-- `2 ^ k - 1` is the word of `k` ones.
pub test_bit-ones : (k i : ℕ) → test_bit (2 ^ k - 1) i ≡ ltb i k
unfolding bit_not
test_bit-ones k i = elim (dec_lt i k) [
  | yes h ↦
      ground (arith, test_bit-bit_not i k 0 (omega (arith, one-le-pow k 2)) h, test_bit-zero i)
  | no h ↦
      ground (arith, test_bit-high i k (2 ^ k - 1) (omega (arith, one-le-pow k 2)) (omega arith))
]

pub test_bit-u32 : (i x : ℕ) → i < 32 → test_bit (u32 x) i ≡ test_bit x i
test_bit-u32 i x low = ground (arith, test_bit-mod 32 i x)
