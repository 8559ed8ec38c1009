-- ===== src/Message/Ids.antt =====
-- CAN identifiers. They are of the crate `embedded_can`, which is not code of the repository: what the
-- driver uses of it is the interface here.
use mcan.Base.{ℕ, ◌≤◌, ◌≡◌}

pub record EmbeddedCan : Type 1 where
  -- 11-bit identifiers, with `as_raw`, `new_unchecked` and `MAX.as_raw()`.
  pub StandardId : Type 0
  pub standard_raw : StandardId → ℕ
  pub standard_new : ℕ → StandardId
  pub standard_max : ℕ
  -- 29-bit identifiers, likewise.
  pub ExtendedId : Type 0
  pub extended_raw : ExtendedId → ℕ
  pub extended_new : ℕ → ExtendedId
  pub extended_max : ℕ
  -- The largest identifiers, and that an identifier is in range.
  pub standard_max_lem : standard_max ≡ 0x7ff
  pub standard_raw-le : (id : StandardId) → standard_raw id ≤ 0x7ff
  pub extended_max_lem : extended_max ≡ 0x1fff_ffff
  pub extended_raw-le : (id : ExtendedId) → extended_raw id ≤ 0x1fff_ffff
  -- `as_raw` and `new_unchecked` are inverse.
  pub standard_raw-new : (n : ℕ) → n ≤ 0x7ff → standard_raw (standard_new n) ≡ n
  pub standard_new-raw : (id : StandardId) → standard_new (standard_raw id) ≡ id
  pub extended_raw-new : (n : ℕ) → n ≤ 0x1fff_ffff → extended_raw (extended_new n) ≡ n
  pub extended_new-raw : (id : ExtendedId) → extended_new (extended_raw id) ≡ id

-- `embedded_can::Id`
pub data Identifier (c : EmbeddedCan) : Type 0 where
  standard : c.StandardId → Identifier c
  extended : c.ExtendedId → Identifier c
