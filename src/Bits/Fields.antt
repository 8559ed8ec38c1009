-- ===== src/Bits/Fields.antt =====
-- Fields of a word as arithmetic: `|` with a shifted field is a sum, `&` with a mask a remainder.
use mcan.Base.{
  ℕ, zero, suc, ◌+◌, ◌-◌, ◌*◌, ◌/◌, ◌%◌, ◌^◌, ◌≤◌, ◌<◌, bit_and, bit_or, ◌≡◌, arith, ◌==◌, sym, ◌∙◌,
  ap,
}
use mcan.Bits.Step.{bit_or_step}
use mcan.Bits.Test.{test_bit, bits_ext, test_bit-bit_and, test_bit-bit_or, bit_and-lt, bit_or-lt}
use mcan.Bits.Word.{
  ◌<<<◌, has_flag, has_flag_lem, test_bit-shr, double_pow, test_bit-ones, test_bit-mod, mod_pow-lt,
  pow-le,
}
use native.Mathlib.Nat.{pow-suc}
use Prim.Native.Nat.{bit_or-bitwise}

zero-bit_or : (b : ℕ) → bit_or 0 b ≡ b
zero-bit_or b = bit_or-bitwise 0 b

-- A field above the bits of `r`.
pub bit_or-add : (k r q : ℕ) → r < 2 ^ k → bit_or r (q * 2 ^ k) ≡ r + q * 2 ^ k
bit_or-add zero r q fits = let e : r ≡ 0 = omega arith in rw e (omega (arith, zero-bit_or (q * 1)))
bit_or-add (suc k) r q fits = omega (
  arith,
  bit_or_step r (q * 2 ^ suc k),
  double_pow k q,
  bit_or-add k (r / 2) q (omega (arith, pow-suc 2 k)),
  ap (λ (t : ℕ). bit_or (r / 2) t) half,
)
  where
    half : q * 2 ^ suc k / 2 ≡ q * 2 ^ k
    half = omega (arith, double_pow k q)

-- `x & (2 ^ k - 1)` is a remainder.
pub bit_and-ones : (k x : ℕ) → k ≤ 32 → x < 2 ^ 32 → bit_and x (2 ^ k - 1) ≡ x % 2 ^ k
bit_and-ones k x small fits =
    bits_ext 32 _ _ (bit_and-lt 32 x _ fits) (mod_pow-lt x k 32 small) λ i low.
      ground (arith, test_bit-bit_and i x (2 ^ k - 1), test_bit-ones k i, test_bit-mod k i x)

-- A flag as arithmetic.
pub has_flag-div : (x i : ℕ) → i < 32 → has_flag x i ≡ (x / 2 ^ i % 2 == 1)
has_flag-div x i low =
    let e : i ≡ 0 + i = omega arith in
    has_flag_lem x i low ∙ (ap (test_bit x) e ∙ sym (test_bit-shr i 0 x))

pub bit_or-shl : (k r q : ℕ) → r < 2 ^ k → q * 2 ^ k < 2 ^ 32 → bit_or r (q <<< k) ≡ r + q * 2 ^ k
bit_or-shl k r q fits small =
    let e : (q <<< k) ≡ q * 2 ^ k = omega arith in rw e (bit_or-add k r q fits)

bit_or_comm : (k a b : ℕ) → a < 2 ^ k → b < 2 ^ k → bit_or a b ≡ bit_or b a
bit_or_comm k a b ha hb =
    bits_ext k _ _ (bit_or-lt k a b ha hb) (bit_or-lt k b a hb ha)
      λ i _. ground (arith, test_bit-bit_or i a b, test_bit-bit_or i b a)

-- A word below a field that stands on the left.
pub shl-bit_or :
    (k r q : ℕ) → r < 2 ^ k → k ≤ 32 → q * 2 ^ k < 2 ^ 32 → bit_or (q * 2 ^ k) r ≡ r + q * 2 ^ k
shl-bit_or k r q fits low small =
    bit_or_comm 32 (q * 2 ^ k) r small (omega (arith, pow-le k 32 low)) ∙ bit_or-add k r q fits
