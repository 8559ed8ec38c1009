-- ===== src/Reg/Fields.antt =====
-- The accessors of single fields (mcan/src/reg/*.rs), one table for the readers and one for the writers of each
-- register.
pub mod Defs
pub mod Core
pub mod InterruptFlags
pub mod InterruptEnable
pub mod InterruptLine
pub mod Receive
pub mod NewData1
pub mod NewData2
pub mod Transmit
pub mod Pending
pub mod AddRequest
pub mod CancelRequest
pub mod CompletionEnable
pub mod CancellationEnable
pub mod Table
pub mod Agree
pub mod Variants
