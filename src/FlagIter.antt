-- ===== src/FlagIter.antt =====
-- Iterators over the set bits of a `u32`. `Iter` of mcan/src/interrupt.rs and `Iter` of
-- mcan/src/tx_buffers.rs are the same code but for the item that an index stands for, which is
-- the parameter `decode` here; it is `none` where the loop ends.
mod Laws
mod Union
mod Defs
unfoldable pub use Defs.*
pub use Laws.*
pub use Union.*
