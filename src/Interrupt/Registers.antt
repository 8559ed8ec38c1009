-- ===== src/Interrupt/Registers.antt =====
-- The interrupts against the registers (mcan/src/interrupt.rs, mcan/src/reg/ir.rs, ie.rs and ils.rs).
use Prim.Native.String.{String}
use mcan.Base.{◌≡◌, refl, some}
use mcan.Interrupt.Kinds.{
  Interrupt, number, rx_fifo0_new_message, rx_fifo0_watermark_reached, rx_fifo0_full,
  rx_fifo0_message_lost, rx_fifo1_new_message, rx_fifo1_watermark_reached, rx_fifo1_full,
  rx_fifo1_message_lost, high_priority_message, transmission_completed,
  transmission_cancellation_finished, tx_fifo_empty, tx_event_fifo_new_entry,
  tx_event_fifo_watermark_reached, tx_event_fifo_full, tx_event_fifo_element_lost,
  timestamp_wraparound, message_ram_access_failure, timeout_occured,
  message_stored_to_dedicated_rx_buffer, bit_error_corrected, bit_error_uncorrected,
  error_logging_overflow, error_passive, warning_status_changed, bus_off, watchdog,
  protocol_error_arbitration, protocol_error_data, access_to_reserved_address,
}
use mcan.Reg.Block.{ir, ie, ils}
use mcan.Reg.Fields.Defs.{read_flag, write_flag, lookup}
use mcan.Reg.Fields.Table.{readers, writers}

-- The name that the documentation of the variant gives the interrupt, as a field of IR, and the fields that enable
-- it in IE and select its line in ILS, which have the same name with an E or an L.
abbrev pub names : Interrupt → String × String × String
names rx_fifo0_new_message = ("rf0n", "rf0ne", "rf0nl")
names rx_fifo0_watermark_reached = ("rf0w", "rf0we", "rf0wl")
names rx_fifo0_full = ("rf0f", "rf0fe", "rf0fl")
names rx_fifo0_message_lost = ("rf0l", "rf0le", "rf0ll")
names rx_fifo1_new_message = ("rf1n", "rf1ne", "rf1nl")
names rx_fifo1_watermark_reached = ("rf1w", "rf1we", "rf1wl")
names rx_fifo1_full = ("rf1f", "rf1fe", "rf1fl")
names rx_fifo1_message_lost = ("rf1l", "rf1le", "rf1ll")
names high_priority_message = ("hpm", "hpme", "hpml")
names transmission_completed = ("tc", "tce", "tcl")
names transmission_cancellation_finished = ("tcf", "tcfe", "tcfl")
names tx_fifo_empty = ("tfe", "tfee", "tfel")
names tx_event_fifo_new_entry = ("tefn", "tefne", "tefnl")
names tx_event_fifo_watermark_reached = ("tefw", "tefwe", "tefwl")
names tx_event_fifo_full = ("teff", "teffe", "teffl")
names tx_event_fifo_element_lost = ("tefl", "tefle", "tefll")
names timestamp_wraparound = ("tsw", "tswe", "tswl")
names message_ram_access_failure = ("mraf", "mrafe", "mrafl")
names timeout_occured = ("too", "tooe", "tool")
names message_stored_to_dedicated_rx_buffer = ("drx", "drxe", "drxl")
names bit_error_corrected = ("bec", "bece", "becl")
names bit_error_uncorrected = ("beu", "beue", "beul")
names error_logging_overflow = ("elo", "eloe", "elol")
names error_passive = ("ep", "epe", "epl")
names warning_status_changed = ("ew", "ewe", "ewl")
names bus_off = ("bo", "boe", "bol")
names watchdog = ("wdi", "wdie", "wdil")
names protocol_error_arbitration = ("pea", "peae", "peal")
names protocol_error_data = ("ped", "pede", "pedl")
names access_to_reserved_address = ("ara", "arae", "aral")

abbrev pub IsFlagOf : Interrupt → Type 0
IsFlagOf i =
    (lookup (names i).0 (readers ir) ≡ some (read_flag (number i)))
    × (lookup (names i).1 (readers ie) ≡ some (read_flag (number i)))
    × (lookup (names i).2 (readers ils) ≡ some (read_flag (number i)))
    × (lookup (names i).1 (writers ie) ≡ some (write_flag (number i)))
    × (lookup (names i).2 (writers ils) ≡ some (write_flag (number i)))

-- The discriminant of an interrupt is the bit of the flag of its name in IR, and of the fields of its name that
-- enable it in IE and select its line in ILS.
pub number-IsFlagOf : (i : Interrupt) → IsFlagOf i
unfolding number
number-IsFlagOf rx_fifo0_new_message = (refl, refl, refl, refl, refl)
number-IsFlagOf rx_fifo0_watermark_reached = (refl, refl, refl, refl, refl)
number-IsFlagOf rx_fifo0_full = (refl, refl, refl, refl, refl)
number-IsFlagOf rx_fifo0_message_lost = (refl, refl, refl, refl, refl)
number-IsFlagOf rx_fifo1_new_message = (refl, refl, refl, refl, refl)
number-IsFlagOf rx_fifo1_watermark_reached = (refl, refl, refl, refl, refl)
number-IsFlagOf rx_fifo1_full = (refl, refl, refl, refl, refl)
number-IsFlagOf rx_fifo1_message_lost = (refl, refl, refl, refl, refl)
number-IsFlagOf high_priority_message = (refl, refl, refl, refl, refl)
number-IsFlagOf transmission_completed = (refl, refl, refl, refl, refl)
number-IsFlagOf transmission_cancellation_finished = (refl, refl, refl, refl, refl)
number-IsFlagOf tx_fifo_empty = (refl, refl, refl, refl, refl)
number-IsFlagOf tx_event_fifo_new_entry = (refl, refl, refl, refl, refl)
number-IsFlagOf tx_event_fifo_watermark_reached = (refl, refl, refl, refl, refl)
number-IsFlagOf tx_event_fifo_full = (refl, refl, refl, refl, refl)
number-IsFlagOf tx_event_fifo_element_lost = (refl, refl, refl, refl, refl)
number-IsFlagOf timestamp_wraparound = (refl, refl, refl, refl, refl)
number-IsFlagOf message_ram_access_failure = (refl, refl, refl, refl, refl)
number-IsFlagOf timeout_occured = (refl, refl, refl, refl, refl)
number-IsFlagOf message_stored_to_dedicated_rx_buffer = (refl, refl, refl, refl, refl)
number-IsFlagOf bit_error_corrected = (refl, refl, refl, refl, refl)
number-IsFlagOf bit_error_uncorrected = (refl, refl, refl, refl, refl)
number-IsFlagOf error_logging_overflow = (refl, refl, refl, refl, refl)
number-IsFlagOf error_passive = (refl, refl, refl, refl, refl)
number-IsFlagOf warning_status_changed = (refl, refl, refl, refl, refl)
number-IsFlagOf bus_off = (refl, refl, refl, refl, refl)
number-IsFlagOf watchdog = (refl, refl, refl, refl, refl)
number-IsFlagOf protocol_error_arbitration = (refl, refl, refl, refl, refl)
number-IsFlagOf protocol_error_data = (refl, refl, refl, refl, refl)
number-IsFlagOf access_to_reserved_address = (refl, refl, refl, refl, refl)
