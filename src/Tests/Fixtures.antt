-- ===== src/Tests/Fixtures.antt =====
-- Concrete parameters for the tests: identifiers, frequencies, and a peripheral whose registers hold
-- what is written to them.
use mcan.Base.{
  ℕ, ◌*◌, ◌/◌, ◌^◌, ◌≤◌, ◌<◌, ◌≡◌, refl, min, arith, Option, none, some, ltb, if◌then◌else◌, lt→ltb,
  [],
}
use mcan.Message.Ids.{EmbeddedCan}
use mcan.Message.Raw.{RawMessage}
use mcan.Config.{Fugit}
use mcan.Reg.Block.{Register, reset_value}
use mcan.Reg.Io.{Hardware}
use mcan.Reg.Stored.{stored}
use mathlib.Core.HLevel.{Σ_prop_path}
use native.Mathlib.Bridge.{le_prop}

-- Numbers up to a bound.
abbrev pub UpTo : ℕ → Type 0
UpTo bound = (n : ℕ) × (n ≤ bound)

abbrev pub clamp : (bound : ℕ) → ℕ → UpTo bound
clamp bound n = (min n bound, omega arith)

pub UpTo_ext : (bound : ℕ) {x y : UpTo bound} → x.0 ≡ y.0 → x ≡ y
UpTo_ext bound p = Σ_prop_path (λ (n : ℕ). le_prop) p

abbrev pub ids : EmbeddedCan
ids = record {
  StandardId = UpTo 0x7ff;
  standard_raw = λ id. id.0;
  standard_new = clamp 0x7ff;
  standard_max = 0x7ff;
  ExtendedId = UpTo 0x1fff_ffff;
  extended_raw = λ id. id.0;
  extended_new = clamp 0x1fff_ffff;
  extended_max = 0x1fff_ffff;
  standard_max_lem = refl;
  standard_raw-le = λ id. id.1;
  extended_max_lem = refl;
  extended_raw-le = λ id. id.1;
  standard_raw-new = λ n h. omega arith;
  standard_new-raw = λ id. let h = id.1 in UpTo_ext 0x7ff (omega arith);
  extended_raw-new = λ n h. omega arith;
  extended_new-raw = λ id. let h = id.1 in UpTo_ext 0x1fff_ffff (omega arith);
}

abbrev pub product : ℕ → ℕ → Option ℕ
product h n = if ltb (h * n) (2 ^ 32) then some (h * n) else none

pub product-exact : (h q n : ℕ) → product h n ≡ some q → q ≡ h * n
product-exact h q n e = ground arith

pub product-fits : (h n : ℕ) → h * n < 2 ^ 32 → product h n ≡ some (h * n)
product-fits h n small = rw (lt→ltb (h * n) (2 ^ 32) small)

abbrev pub hertz : Fugit
hertz = record {
  HertzU32 = ℕ;
  to_hz = λ h. h;
  mul = product;
  div = λ a b. some (a / b);
  mul-exact = product-exact;
  mul-fits = λ h n small. (h * n, product-fits h n small);
  div_lem = λ a b positive. refl;
}

-- Every register holds what is written to it, from its reset value on, and the cells are all `m`.
abbrev pub ram : {M : Type 0} → M → Hardware M
ram m = record { register = λ t r. stored r (reset_value r) t; cell = λ t i. m }

-- The same with each register at a fixed value.
abbrev pub fixed : {M : Type 0} → M → (Register → ℕ) → Hardware M
fixed m value = record { register = λ t r. value r; cell = λ t i. m }

-- A message without data.
abbrev pub no_message : RawMessage
no_message = record { header0 = 0; header1 = 0; bytes = [] }
