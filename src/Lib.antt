-- ===== src/Lib.antt =====
-- A verification library of the `mcan` driver for the Bosch M_CAN peripheral.
--
-- The driver is a crate over volatile registers and a shared message RAM. Its parts, with the files that
-- model them:
--
-- - Registers (mcan/src/reg.rs, mcan/src/reg/generic.rs): Reg. `Reg.Block` has the registers in the order of
--   `RegisterBlock`, `Reg.Field` the field writers and readers on words, `Reg.Io` the accesses
--   `Reg::read`, `Reg::write`, `Reg::modify` and those of `VolatileCell`. The peripheral is a parameter,
--   `Reg.Io.Hardware`: for every history of accesses it says what the next read returns. A function of the driver
--   is a program that extends the history and ends with a value, a panic, or a busy-wait out of fuel.
--   `Reg.Stored` states that a register reads back what was written to it last, a hypothesis of the theorems that
--   need it; CCCR does so only in part, since the peripheral clears CCE with INIT and takes the protected bits
--   only in configuration mode. `Reg.Effects` keeps the writes of a history.
-- - Fields of registers (mcan/src/reg/*.rs): `Reg.Fields` has for each register the accessors of its reader `R` and
--   of its writer `W`, by the names of the functions, with their offsets and widths; `Reg.Fields.Table` finds them by
--   the register. `Reg.Fields.Variants` has the enumerations of field values, each with its discriminants, the arms of
--   `variant`, the tests `is_…` and the functions of the writer as they stand in the source. `Reg.DataField` has
--   the data field sizes of RXESC and TXESC as a type.
-- - Interrupts (mcan/src/interrupt.rs, mcan/src/interrupt/state.rs): Interrupt. `Interrupt.Kinds` has
--   `Interrupt` and `InterruptSet`, `Interrupt.Owned` has `OwnedInterruptSet` with its type states as an index,
--   `Interrupt.Configuration` has `InterruptConfiguration`, and `Interrupt.Registers` the fields of IR, IE and ILS.
--   `Interrupt.Owned.Sharing` has the steps in which the owned sets of a program are split, joined, converted and
--   passed on.
-- - Messages (mcan/src/message/*.rs): Message. `Message.Dlc` has the data length codes, `Message.Raw` the
--   `RawMessage` with the readers of `Raw`, of received messages and of events, `Message.Tx` the builder and
--   `as_tx_builder`. The identifiers are of the crate `embedded_can`: a parameter, `Message.Ids.EmbeddedCan`.
-- - Filters (mcan/src/filter.rs): Filter, with the encodings of the filter kinds and, in `Filter.Memory`, the
--   list of elements. `Filter.Standard` and `Filter.Extended` read an element by the data sheet: the second
--   identifier of an element that stores into a buffer is six bits of offset, three of event pins and two of
--   message type.
-- - Buffers: TxBufferSet and TxBuffers (mcan/src/tx_buffers.rs), RxFifo (mcan/src/rx_fifo.rs),
--   RxDedicatedBuffers (mcan/src/rx_dedicated_buffers.rs), TxEventFifo (mcan/src/tx_event_fifo.rs). Their
--   memory is known by its length; the accesses to its cells are part of the history. `HardwareFifo.IsFifo` says
--   what a peripheral does that keeps the elements of a FIFO in order, which `RxFifo.Queue` and `TxEventFifo.Queue`
--   use. Nb has the results of the crate `nb`.
-- - Mode changes (mcan/src/reg.rs, mcan/src/bus.rs): Can, with the busy-waits on CCCR.
-- - Message RAM (mcan/src/messageram.rs): MessageRam, with the capacities as numbers, the sections of the memory in
--   the order of `SharedMemoryInner`, their sizes and offsets, and the check of the address.
-- - Bit timing and modes (mcan/src/config.rs): Config. `fugit::HertzU32` is a parameter, `Config.Fugit`.
-- - The bus (mcan/src/bus.rs): Bus has `apply_configuration` with the structs that it reads, `Bus.Ram` has
--   `apply_ram_config` and, in `Bus.Ram.Regions`, the regions that the peripheral takes from the registers, and
--   `Bus.Lifecycle` has `Can` with `new`, `finalize`, `finalize_initialized`, `configure` and the readers of `Aux`. `new` gets the address of the memory and the start of the region that the dependencies
--   name. Pointers into the memory are its address and an offset.
-- - FlagIter has the iterators over the bits of a set, which interrupts and transmit buffers share.
-- - Bits has unsigned integers and their bits, Base the names that all share, Tests the theorems at concrete
--   inputs.
--
-- Integers: a `u32` is a number with the wrap-around written out where an operation can exceed it. Overflow
-- checks and debug assertions are on, so a shift by too much and a failed assertion are panics.
--
-- Fuel: `FlagIter.next` has fuel 33, one more than the indices that an iterator can stand at, and the loops over
-- a set have one more than the items of a set. The busy-waits on CCCR take their fuel as an argument.
--
-- Not modelled: the register files that no register of the block uses (mcan/src/reg/rxf0c.rs and the like); the
-- comparisons of readers with numbers, which the driver does not use (mcan/src/reg/generic.rs); the accessors of
-- `CanConfigurable` that give out a field of it; and the traits of the platform (mcan-core), which have no behaviour
-- of their own. Markers of type states and lifetimes are erased, but for the states of owned interrupt sets.
pub mod Base
pub mod Bits
pub mod Reg
pub mod FlagIter
pub mod HardwareFifo
pub mod Interrupt
pub mod Message
pub mod Filter
pub mod Can
pub mod MessageRam
pub mod Nb
pub mod Config
pub mod TxBufferSet
pub mod TxBuffers
pub mod RxFifo
pub mod RxDedicatedBuffers
pub mod TxEventFifo
pub mod Bus
pub mod Tests
