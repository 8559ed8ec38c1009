-- ===== src/Reg/Fields/Variants.antt =====
-- Fields whose values are enumerated (mcan/src/reg/*.rs).
pub mod Defs
pub mod Tables
pub mod Check
pub mod Laws
