-- ===== src/Bits.antt =====
-- Machine words and their bits.
mod Step
mod Test
mod Word
mod Fields
unfoldable pub use Test.*
unfoldable pub use Word.*
pub use Fields.*
