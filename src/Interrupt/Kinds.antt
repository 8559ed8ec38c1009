-- ===== src/Interrupt/Kinds.antt =====
-- `Interrupt` and `InterruptSet` (mcan/src/interrupt.rs).
pub mod All
pub mod Laws
use mcan.Base.{ℕ, Bool, Option, none, some, List, [], ◌∷◌, bit_and, bit_or, ◌==◌, if◌then◌else◌}
use mcan.Bits.{◌<<<◌}
use mcan.FlagIter
use mcan.FlagIter.{Iter}

-- A single interrupt.
pub data Interrupt : Type 0 where
  rx_fifo0_new_message : Interrupt
  rx_fifo0_watermark_reached : Interrupt
  rx_fifo0_full : Interrupt
  rx_fifo0_message_lost : Interrupt
  rx_fifo1_new_message : Interrupt
  rx_fifo1_watermark_reached : Interrupt
  rx_fifo1_full : Interrupt
  rx_fifo1_message_lost : Interrupt
  high_priority_message : Interrupt
  transmission_completed : Interrupt
  transmission_cancellation_finished : Interrupt
  tx_fifo_empty : Interrupt
  tx_event_fifo_new_entry : Interrupt
  tx_event_fifo_watermark_reached : Interrupt
  tx_event_fifo_full : Interrupt
  tx_event_fifo_element_lost : Interrupt
  timestamp_wraparound : Interrupt
  message_ram_access_failure : Interrupt
  timeout_occured : Interrupt
  message_stored_to_dedicated_rx_buffer : Interrupt
  bit_error_corrected : Interrupt
  bit_error_uncorrected : Interrupt
  error_logging_overflow : Interrupt
  error_passive : Interrupt
  warning_status_changed : Interrupt
  bus_off : Interrupt
  watchdog : Interrupt
  protocol_error_arbitration : Interrupt
  protocol_error_data : Interrupt
  access_to_reserved_address : Interrupt

-- `x as u32`, the discriminant.
unfoldable pub number : Interrupt → ℕ
number rx_fifo0_new_message = 0
number rx_fifo0_watermark_reached = 1
number rx_fifo0_full = 2
number rx_fifo0_message_lost = 3
number rx_fifo1_new_message = 4
number rx_fifo1_watermark_reached = 5
number rx_fifo1_full = 6
number rx_fifo1_message_lost = 7
number high_priority_message = 8
number transmission_completed = 9
number transmission_cancellation_finished = 10
number tx_fifo_empty = 11
number tx_event_fifo_new_entry = 12
number tx_event_fifo_watermark_reached = 13
number tx_event_fifo_full = 14
number tx_event_fifo_element_lost = 15
number timestamp_wraparound = 16
number message_ram_access_failure = 17
number timeout_occured = 18
number message_stored_to_dedicated_rx_buffer = 19
number bit_error_corrected = 20
number bit_error_uncorrected = 21
number error_logging_overflow = 22
number error_passive = 23
number warning_status_changed = 24
number bus_off = 25
number watchdog = 26
number protocol_error_arbitration = 27
number protocol_error_data = 28
number access_to_reserved_address = 29

-- `From<Interrupt> for u32`
unfoldable pub to_u32 : Interrupt → ℕ
unfolding number
to_u32 x = 1 <<< number x

-- `TryFrom<u8> for Interrupt`; `none` is `InvalidInterruptNumber`.
unfoldable pub try_from : ℕ → Option Interrupt
try_from value =
    if value == 0
    then some rx_fifo0_new_message
    else if value == 1
    then some rx_fifo0_watermark_reached
    else if value == 2
    then some rx_fifo0_full
    else if value == 3
    then some rx_fifo0_message_lost
    else if value == 4
    then some rx_fifo1_new_message
    else if value == 5
    then some rx_fifo1_watermark_reached
    else if value == 6
    then some rx_fifo1_full
    else if value == 7
    then some rx_fifo1_message_lost
    else if value == 8
    then some high_priority_message
    else if value == 9
    then some transmission_completed
    else if value == 10
    then some transmission_cancellation_finished
    else if value == 11
    then some tx_fifo_empty
    else if value == 12
    then some tx_event_fifo_new_entry
    else if value == 13
    then some tx_event_fifo_watermark_reached
    else if value == 14
    then some tx_event_fifo_full
    else if value == 15
    then some tx_event_fifo_element_lost
    else if value == 16
    then some timestamp_wraparound
    else if value == 17
    then some message_ram_access_failure
    else if value == 18
    then some timeout_occured
    else if value == 19
    then some message_stored_to_dedicated_rx_buffer
    else if value == 20
    then some bit_error_corrected
    else if value == 21
    then some bit_error_uncorrected
    else if value == 22
    then some error_logging_overflow
    else if value == 23
    then some error_passive
    else if value == 24
    then some warning_status_changed
    else if value == 25
    then some bus_off
    else if value == 26
    then some watchdog
    else if value == 27
    then some protocol_error_arbitration
    else if value == 28
    then some protocol_error_data
    else if value == 29
    then some access_to_reserved_address
    else none

-- `FromIterator<Interrupt> for InterruptSet`
unfoldable pub from_iter : List Interrupt → ℕ
unfolding to_u32 FlagIter.collect_into
from_iter interrupts = FlagIter.collect_into to_u32 0 interrupts

-- `From<Interrupt> for InterruptSet`
unfoldable pub from_interrupt : Interrupt → ℕ
unfolding to_u32
from_interrupt value = to_u32 value

-- `InterruptSet::is_empty`
unfoldable pub is_empty : ℕ → Bool
is_empty set = set == 0

-- `Iter::next` and a loop over `set.iter()`, on fuel.
unfoldable pub next : ℕ → Iter → Option (Option Interrupt × Iter)
unfolding FlagIter.next try_from
next fuel it = FlagIter.next try_from fuel it

unfoldable pub collect : ℕ → Iter → Option (List Interrupt)
unfolding FlagIter.collect try_from
collect fuel it = FlagIter.collect try_from fuel it
