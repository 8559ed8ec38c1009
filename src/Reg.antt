-- ===== src/Reg.antt =====
-- Volatile access to the peripheral's registers and message RAM
-- (mcan/src/reg.rs and mcan/src/reg/generic.rs).
--
-- The peripheral is not code of the repository, so it is a parameter: `Hardware` gives, for every
-- history of accesses, what the next read of a register or of a cell of message RAM returns. The
-- driver's functions are programs that extend the history.
pub mod Field
pub mod Block
pub mod Io
pub mod Stored
pub mod Effects
pub mod Layout
pub mod DataField
pub mod Fields
