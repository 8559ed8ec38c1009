-- ===== src/Interrupt.antt =====
-- Interrupts (mcan/src/interrupt.rs and mcan/src/interrupt/state.rs): the interrupts and sets of them,
-- the iterator, the owned sets that share out access to IR, and the configuration of the lines.
pub mod Kinds
pub mod Owned
pub mod Configuration
pub mod Exclusive
pub mod Registers
