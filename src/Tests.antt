-- ===== src/Tests.antt =====
-- The theorems at concrete inputs.
mod Fixtures
mod Interrupts
mod Messages
mod Filters
mod Buffers
mod Registers
mod Fifo
mod Setup
mod Bus
mod Lifecycle
