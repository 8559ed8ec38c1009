-- ===== src/Message.antt =====
-- Messages and frames (mcan/src/message/).
pub mod Ids
pub mod Dlc
pub mod Raw
pub mod Tx
