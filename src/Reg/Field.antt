-- ===== src/Reg/Field.antt =====
-- Field writers and readers (mcan/src/reg/generic.rs), on registers of 32 bits.
mod Defs
mod Laws
mod Decode
unfoldable pub use Defs.*
pub use Laws.*
pub use Decode.*
