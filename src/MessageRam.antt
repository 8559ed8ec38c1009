-- ===== src/MessageRam.antt =====
-- The memory that the core and the peripheral share (mcan/src/messageram.rs).
pub mod Placement
use mcan.Base.{ℕ, ◌+◌, ◌-◌, ◌*◌, ◌^◌, ◌≤◌, Bool, leb, ◌&&◌, List, [], ◌∷◌}
use mathlib.Core.Logic.{ite}

-- The `N` for which `RawMessage<N>` implements `AnyMessage` (mcan/src/message/mod.rs).
pub data MessageSize : Type 0 where
  n8 n12 n16 n20 n24 n32 n48 n64 : MessageSize

unfoldable pub data_len : MessageSize → ℕ
data_len n8 = 8
data_len n12 = 12
data_len n16 = 16
data_len n20 = 20
data_len n24 = 24
data_len n32 = 32
data_len n48 = 48
data_len n64 = 64

-- `AnyMessage::REG`
unfoldable pub reg_value : MessageSize → ℕ
reg_value n8 = 0
reg_value n12 = 1
reg_value n16 = 2
reg_value n20 = 3
reg_value n24 = 4
reg_value n32 = 5
reg_value n48 = 6
reg_value n64 = 7

-- The trait `Capacities`: its type-level numbers, and the data sizes of its message types.
pub record Capacities : Type 0 where
  pub standard_filters : ℕ
  pub extended_filters : ℕ
  pub rx_buffer_message : MessageSize
  pub dedicated_rx_buffers : ℕ
  pub rx_fifo_0_message : MessageSize
  pub rx_fifo_0 : ℕ
  pub rx_fifo_1_message : MessageSize
  pub rx_fifo_1 : ℕ
  pub tx_message : MessageSize
  pub tx_buffers : ℕ
  pub dedicated_tx_buffers : ℕ
  pub tx_event_fifo : ℕ

-- The bounds `LimitedArrayLength` of the trait.
pub record IsLimited (c : Capacities) : Type 0 where
  pub standard_filters_le : c.standard_filters ≤ 128
  pub extended_filters_le : c.extended_filters ≤ 64
  pub dedicated_rx_buffers_le : c.dedicated_rx_buffers ≤ 64
  pub rx_fifo_0_le : c.rx_fifo_0 ≤ 64
  pub rx_fifo_1_le : c.rx_fifo_1 ≤ 64
  pub tx_buffers_le : c.tx_buffers ≤ 32
  pub dedicated_tx_buffers_le : c.dedicated_tx_buffers ≤ c.tx_buffers
  pub tx_event_fifo_le : c.tx_event_fifo ≤ 32

-- The fields of `SharedMemoryInner`.
pub data Section : Type 0 where
  filters_standard filters_extended rx_fifo_0 rx_fifo_1 : Section
  rx_dedicated_buffers tx_event_fifo tx_buffers : Section

unfoldable pub Section-discrete : Discrete Section
Section-discrete = hlevel

-- The size of a message in bytes: a header of two words, and the data.
unfoldable pub message_bytes : MessageSize → ℕ
unfolding data_len
message_bytes n = 8 + data_len n

-- The number of elements, `len()` of the array, and the bytes of each. A `TxEvent` has no data.
unfoldable pub count : Capacities → Section → ℕ
count c filters_standard = c.standard_filters
count c filters_extended = c.extended_filters
count c rx_fifo_0 = c.rx_fifo_0
count c rx_fifo_1 = c.rx_fifo_1
count c rx_dedicated_buffers = c.dedicated_rx_buffers
count c tx_event_fifo = c.tx_event_fifo
count c tx_buffers = c.tx_buffers

unfoldable pub element_bytes : Capacities → Section → ℕ
unfolding message_bytes
element_bytes c filters_standard = 4
element_bytes c filters_extended = 8
element_bytes c rx_fifo_0 = message_bytes c.rx_fifo_0_message
element_bytes c rx_fifo_1 = message_bytes c.rx_fifo_1_message
element_bytes c rx_dedicated_buffers = message_bytes c.rx_buffer_message
element_bytes c tx_event_fifo = 8
element_bytes c tx_buffers = message_bytes c.tx_message

unfoldable pub section_bytes : Capacities → Section → ℕ
unfolding count element_bytes
section_bytes c s = count c s * element_bytes c s

-- The order of the `repr(C)` struct.
unfoldable pub shared_memory_inner : List Section
shared_memory_inner =
    filters_standard ∷ filters_extended ∷ rx_fifo_0 ∷ rx_fifo_1 ∷ rx_dedicated_buffers
    ∷ tx_event_fifo ∷ tx_buffers ∷ []

-- Where a section starts: all elements are whole words, so there is no padding.
abbrev pub offset_in : Capacities → Section → ℕ → List Section → ℕ
offset_in c s start [] = start
offset_in c s start (q ∷ qs) =
    ite (Section-discrete q s) start (offset_in c s (start + section_bytes c q) qs)

unfoldable pub offset : Capacities → Section → ℕ
unfolding Section-discrete section_bytes shared_memory_inner
offset c s = offset_in c s 0 shared_memory_inner

abbrev pub total_bytes : Capacities → List Section → ℕ
total_bytes c [] = 0
total_bytes c (q ∷ qs) = section_bytes c q + total_bytes c qs

-- `size_of::<SharedMemory<C>>()`
unfoldable pub size_of : Capacities → ℕ
unfolding section_bytes shared_memory_inner
size_of c = total_bytes c shared_memory_inner

-- `SharedMemory::is_addressable` of a memory of `size` bytes that starts at `start`.
unfoldable pub is_addressable : ℕ → ℕ → ℕ → Bool
is_addressable size start eligible_message_ram_start =
    let end_exclusive = start + size in
    leb eligible_message_ram_start start
    && leb (end_exclusive - eligible_message_ram_start) (2 ^ 16)
