-- ===== src/Interrupt/Kinds/Laws.antt =====
-- The interrupts of a set: numbers and names correspond, and the iterator yields exactly the members.
use mcan.Base.{ℕ, ◌^◌, ◌<◌, ◌≡◌, refl, some, List, bit_and, ◌↔◌, arith}
use mcan.FlagIter
use mcan.FlagIter.{iter, flagged, Decodes, Values}
use mcan.Interrupt.Kinds.All.{all_interrupts, all-Decodes, all-Values}
use mcan.Interrupt.Kinds.{Interrupt, number, to_u32, try_from, collect, from_iter}
use mcan.Interrupt.Kinds.{
  rx_fifo0_new_message, rx_fifo0_watermark_reached, rx_fifo0_full, rx_fifo0_message_lost,
  rx_fifo1_new_message, rx_fifo1_watermark_reached, rx_fifo1_full, rx_fifo1_message_lost,
  high_priority_message, transmission_completed, transmission_cancellation_finished, tx_fifo_empty,
  tx_event_fifo_new_entry, tx_event_fifo_watermark_reached, tx_event_fifo_full,
  tx_event_fifo_element_lost, timestamp_wraparound, message_ram_access_failure, timeout_occured,
  message_stored_to_dedicated_rx_buffer, bit_error_corrected, bit_error_uncorrected,
  error_logging_overflow, error_passive, warning_status_changed, bus_off, watchdog,
  protocol_error_arbitration, protocol_error_data, access_to_reserved_address,
}

try_from-number : (i : Interrupt) → try_from (number i) ≡ some i
unfolding try_from number
try_from-number rx_fifo0_new_message = refl
try_from-number rx_fifo0_watermark_reached = refl
try_from-number rx_fifo0_full = refl
try_from-number rx_fifo0_message_lost = refl
try_from-number rx_fifo1_new_message = refl
try_from-number rx_fifo1_watermark_reached = refl
try_from-number rx_fifo1_full = refl
try_from-number rx_fifo1_message_lost = refl
try_from-number high_priority_message = refl
try_from-number transmission_completed = refl
try_from-number transmission_cancellation_finished = refl
try_from-number tx_fifo_empty = refl
try_from-number tx_event_fifo_new_entry = refl
try_from-number tx_event_fifo_watermark_reached = refl
try_from-number tx_event_fifo_full = refl
try_from-number tx_event_fifo_element_lost = refl
try_from-number timestamp_wraparound = refl
try_from-number message_ram_access_failure = refl
try_from-number timeout_occured = refl
try_from-number message_stored_to_dedicated_rx_buffer = refl
try_from-number bit_error_corrected = refl
try_from-number bit_error_uncorrected = refl
try_from-number error_logging_overflow = refl
try_from-number error_passive = refl
try_from-number warning_status_changed = refl
try_from-number bus_off = refl
try_from-number watchdog = refl
try_from-number protocol_error_arbitration = refl
try_from-number protocol_error_data = refl
try_from-number access_to_reserved_address = refl

-- Enough fuel for a loop over the interrupts of a set.
abbrev pub all_fuel : ℕ
all_fuel = 31

pub collect-iter : (set : ℕ) → collect all_fuel (iter set) ≡ some (flagged set 0 all_interrupts)
unfolding collect
collect-iter set =
    FlagIter.collect-iter try_from set all_fuel all_interrupts (omega arith) (omega arith)
      all-Decodes

-- The loop over `set.iter()` ends, and collecting what it yields gives back the set without the
-- reserved bits.
pub from_iter-iter :
    (set : ℕ)
    → set < 2 ^ 32
    → (xs : List Interrupt) × (collect all_fuel (iter set) ≡ some xs)
      × (from_iter xs ≡ bit_and set 0x3fff_ffff)
unfolding from_iter
from_iter-iter set fits = (
  flagged set 0 all_interrupts,
  collect-iter set,
  FlagIter.collect_into-flagged to_u32 set all_interrupts (omega arith) fits all-Values,
)

-- `try_from` undoes the discriminant, and there is no interrupt with a number from 30 on.
pub try_from_iff : (value : ℕ) (i : Interrupt) → (try_from value ≡ some i) ↔ (number i ≡ value)
unfolding try_from number
try_from_iff value i = (λ h. ground arith, λ e. rw (← e) (try_from-number i))
