-- ===== src/Bits/Test.antt =====
-- The bits of a number one by one, and what the word operations do to each.
use mcan.Base.{
  ℕ, zero, suc, ◌-◌, ◌/◌, ◌%◌, ◌^◌, ◌≤◌, ◌<◌, bit_and, bit_or, ◌≡◌, refl, arith, Bool, false, ◌&&◌,
  ◌||◌, not, ◌==◌, if◌then◌else◌,
}
use mcan.Bits.Step.{bit_and_step, bit_or_step}
use native.Mathlib.Nat.{pow-suc, one-le-pow}
use Prim.Native.Nat.{bit_and-bitwise}

-- Bit `i` of `x`.
abbrev pub test_bit : ℕ → ℕ → Bool
test_bit x zero = x % 2 == 1
test_bit x (suc i) = test_bit (x / 2) i

-- `!x` on words of `w` bits.
unfoldable pub bit_not : ℕ → ℕ → ℕ
bit_not w x = 2 ^ w - 1 - x

pub test_bit-zero : (i : ℕ) → test_bit 0 i ≡ false
test_bit-zero zero = refl
test_bit-zero (suc i) = test_bit-zero i

pub test_bit-bit_and : (i a b : ℕ) → test_bit (bit_and a b) i ≡ (test_bit a i && test_bit b i)
test_bit-bit_and zero a b = ground (arith, bit_and_step a b)
test_bit-bit_and (suc i) a b =
    let half : bit_and a b / 2 ≡ bit_and (a / 2) (b / 2) = omega (arith, bit_and_step a b) in
    rw half (test_bit-bit_and i (a / 2) (b / 2))

pub test_bit-bit_or : (i a b : ℕ) → test_bit (bit_or a b) i ≡ (test_bit a i || test_bit b i)
test_bit-bit_or zero a b = ground (arith, bit_or_step a b)
test_bit-bit_or (suc i) a b =
    let half : bit_or a b / 2 ≡ bit_or (a / 2) (b / 2) = omega (arith, bit_or_step a b) in
    rw half (test_bit-bit_or i (a / 2) (b / 2))

pub test_bit-bit_not :
    (i w x : ℕ) → x < 2 ^ w → i < w → test_bit (bit_not w x) i ≡ not (test_bit x i)
unfolding bit_not
test_bit-bit_not i zero x fits low = absurd (omega arith)
test_bit-bit_not zero (suc w) x fits low = ground (arith, pow-suc 2 w, one-le-pow w 2)
test_bit-bit_not (suc i) (suc w) x fits low =
    let half : (2 ^ suc w - 1 - x) / 2 ≡ 2 ^ w - 1 - x / 2 =
      omega (arith, pow-suc 2 w, one-le-pow w 2) in
    rw half (test_bit-bit_not i w (x / 2) (omega (arith, pow-suc 2 w)) (omega arith))

pub test_bit-pow : (k i : ℕ) → test_bit (2 ^ k) i ≡ (k == i)
test_bit-pow zero zero = refl
test_bit-pow zero (suc i) = ground (arith, test_bit-zero i)
test_bit-pow (suc k) zero = ground (arith, pow-suc 2 k)
test_bit-pow (suc k) (suc i) =
    let half : 2 ^ suc k / 2 ≡ 2 ^ k = omega (arith, pow-suc 2 k) in
    rw half (ground (arith, test_bit-pow k i))

-- The bits of a number below `2 ^ k` stand below `k`.
pub test_bit-high : (i k x : ℕ) → x < 2 ^ k → k ≤ i → test_bit x i ≡ false
test_bit-high i zero x fits high = let e : x ≡ 0 = omega arith in rw e (test_bit-zero i)
test_bit-high zero (suc k) x fits high = absurd (omega arith)
test_bit-high (suc i) (suc k) x fits high =
    test_bit-high i k (x / 2) (omega (arith, pow-suc 2 k)) (omega arith)

-- Two words with the same bits are equal.
pub bits_ext :
    (k a b : ℕ) → a < 2 ^ k → b < 2 ^ k → ((i : ℕ) → i < k → test_bit a i ≡ test_bit b i) → a ≡ b
bits_ext zero a b ha hb same = omega arith
bits_ext (suc k) a b ha hb same = ground (
  arith,
  same 0 (omega arith),
  bits_ext k (a / 2) (b / 2) (omega (arith, pow-suc 2 k)) (omega (arith, pow-suc 2 k))
      (λ i h. same (suc i) (omega arith)),
)

zero-bit_and : (b : ℕ) → bit_and 0 b ≡ 0
zero-bit_and b = bit_and-bitwise 0 b

pub bit_and-le_left : (k a b : ℕ) → a < 2 ^ k → bit_and a b ≤ a
bit_and-le_left zero a b h =
    let e : a ≡ 0 = omega arith in rw e (omega (arith, bit_and_step 0 b, zero-bit_and (b / 2)))
bit_and-le_left (suc k) a b h =
    omega (arith, bit_and_step a b, bit_and-le_left k (a / 2) (b / 2) (omega (arith, pow-suc 2 k)))

pub bit_or-lt : (k a b : ℕ) → a < 2 ^ k → b < 2 ^ k → bit_or a b < 2 ^ k
bit_or-lt zero a b ha hb =
    let e : a ≡ 0 = omega arith in let e' : b ≡ 0 = omega arith in rw (e, e') (omega arith)
bit_or-lt (suc k) a b ha hb = omega (
  arith,
  bit_or_step a b,
  pow-suc 2 k,
  bit_or-lt k (a / 2) (b / 2) (omega (arith, pow-suc 2 k)) (omega (arith, pow-suc 2 k)),
)

pub bit_and-lt : (k a b : ℕ) → a < 2 ^ k → bit_and a b < 2 ^ k
bit_and-lt k a b h = omega (arith, bit_and-le_left k a b h)

pub bit_not-lt : (k a : ℕ) → bit_not k a < 2 ^ k
unfolding bit_not
bit_not-lt k a = omega (arith, one-le-pow k 2)

bit_and-zero : (n a : ℕ) → a ≤ n → bit_and a 0 ≡ 0
bit_and-zero zero a h = let e : a ≡ 0 = omega arith in rw e (zero-bit_and 0)
bit_and-zero (suc n) zero h = zero-bit_and 0
bit_and-zero (suc n) (suc a) h =
    omega (arith, bit_and_step (suc a) 0, bit_and-zero n (suc a / 2) (omega arith))

-- A mask of one bit keeps that bit alone.
pub bit_and-pow : (i x : ℕ) → bit_and x (2 ^ i) ≡ (if test_bit x i then 2 ^ i else 0)
bit_and-pow zero x = ground (arith, bit_and_step x 1, bit_and-zero (x / 2) (x / 2) (omega arith))
bit_and-pow (suc i) x =
    ground (arith, bit_and_step x (2 ^ suc i), pow-suc 2 i, bit_and-pow i (x / 2), half)
  where
    half : 2 ^ suc i / 2 ≡ 2 ^ i
    half = omega (arith, pow-suc 2 i)

pub bit_and-le_right : (k a b : ℕ) → b < 2 ^ k → bit_and a b ≤ b
bit_and-le_right zero a b h = let e : b ≡ 0 = omega arith in rw e (omega (arith, bit_and-zero a a))
bit_and-le_right (suc k) a b h =
    omega (arith, bit_and_step a b, bit_and-le_right k (a / 2) (b / 2) (omega (arith, pow-suc 2 k)))

pub bit_and-lt_right : (k a b : ℕ) → b < 2 ^ k → bit_and a b < 2 ^ k
bit_and-lt_right k a b h = omega (arith, bit_and-le_right k a b h)

-- Masking twice is masking once.
pub bit_and-bit_and_self : (k a b : ℕ) → b < 2 ^ k → bit_and (bit_and a b) b ≡ bit_and a b
bit_and-bit_and_self k a b h =
    bits_ext k _ _ (bit_and-lt_right k (bit_and a b) b h) (bit_and-lt_right k a b h)
      λ i _. ground (arith, test_bit-bit_and i (bit_and a b) b, test_bit-bit_and i a b)
