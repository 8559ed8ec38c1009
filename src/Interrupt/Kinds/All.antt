-- ===== src/Interrupt/Kinds/All.antt =====
-- All the interrupts (mcan/src/interrupt.rs), in the order of their numbers.
use mcan.Base.{refl, List, [], ◌∷◌}
use mcan.FlagIter.{Decodes, Values}
use mcan.Interrupt.Kinds.{Interrupt, to_u32, try_from}
use mcan.Interrupt.Kinds.{
  rx_fifo0_new_message, rx_fifo0_watermark_reached, rx_fifo0_full, rx_fifo0_message_lost,
  rx_fifo1_new_message, rx_fifo1_watermark_reached, rx_fifo1_full, rx_fifo1_message_lost,
  high_priority_message, transmission_completed, transmission_cancellation_finished, tx_fifo_empty,
  tx_event_fifo_new_entry, tx_event_fifo_watermark_reached, tx_event_fifo_full,
  tx_event_fifo_element_lost, timestamp_wraparound, message_ram_access_failure, timeout_occured,
  message_stored_to_dedicated_rx_buffer, bit_error_corrected, bit_error_uncorrected,
  error_logging_overflow, error_passive, warning_status_changed, bus_off, watchdog,
  protocol_error_arbitration, protocol_error_data, access_to_reserved_address,
}

-- The interrupts in the order of their numbers.
abbrev pub all_interrupts : List Interrupt
all_interrupts =
    rx_fifo0_new_message ∷ rx_fifo0_watermark_reached ∷ rx_fifo0_full ∷ rx_fifo0_message_lost
    ∷ rx_fifo1_new_message ∷ rx_fifo1_watermark_reached ∷ rx_fifo1_full ∷ rx_fifo1_message_lost
    ∷ high_priority_message ∷ transmission_completed ∷ transmission_cancellation_finished
    ∷ tx_fifo_empty ∷ tx_event_fifo_new_entry ∷ tx_event_fifo_watermark_reached ∷ tx_event_fifo_full
    ∷ tx_event_fifo_element_lost ∷ timestamp_wraparound ∷ message_ram_access_failure
    ∷ timeout_occured ∷ message_stored_to_dedicated_rx_buffer ∷ bit_error_corrected
    ∷ bit_error_uncorrected ∷ error_logging_overflow ∷ error_passive ∷ warning_status_changed
    ∷ bus_off ∷ watchdog ∷ protocol_error_arbitration ∷ protocol_error_data
    ∷ access_to_reserved_address ∷ []

pub all-Decodes : Decodes try_from 0 all_interrupts
unfolding try_from
all-Decodes = (
  refl,
  (
    refl,
    (
      refl,
      (
        refl,
        (
          refl,
          (
            refl,
            (
              refl,
              (
                refl,
                (
                  refl,
                  (
                    refl,
                    (
                      refl,
                      (
                        refl,
                        (
                          refl,
                          (
                            refl,
                            (
                              refl,
                              (
                                refl,
                                (
                                  refl,
                                  (
                                    refl,
                                    (
                                      refl,
                                      (
                                        refl,
                                        (
                                          refl,
                                          (
                                            refl,
                                            (
                                              refl,
                                              (
                                                refl,
                                                (
                                                  refl,
                                                  (refl, (refl, (refl, (refl, (refl, refl))))),
                                                ),
                                              ),
                                            ),
                                          ),
                                        ),
                                      ),
                                    ),
                                  ),
                                ),
                              ),
                            ),
                          ),
                        ),
                      ),
                    ),
                  ),
                ),
              ),
            ),
          ),
        ),
      ),
    ),
  ),
)

pub all-Values : Values to_u32 0 all_interrupts
unfolding to_u32
all-Values = (
  refl,
  (
    refl,
    (
      refl,
      (
        refl,
        (
          refl,
          (
            refl,
            (
              refl,
              (
                refl,
                (
                  refl,
                  (
                    refl,
                    (
                      refl,
                      (
                        refl,
                        (
                          refl,
                          (
                            refl,
                            (
                              refl,
                              (
                                refl,
                                (
                                  refl,
                                  (
                                    refl,
                                    (
                                      refl,
                                      (
                                        refl,
                                        (
                                          refl,
                                          (
                                            refl,
                                            (
                                              refl,
                                              (
                                                refl,
                                                (refl, (refl, (refl, (refl, (refl, (refl, tt)))))),
                                              ),
                                            ),
                                          ),
                                        ),
                                      ),
                                    ),
                                  ),
                                ),
                              ),
                            ),
                          ),
                        ),
                      ),
                    ),
                  ),
                ),
              ),
            ),
          ),
        ),
      ),
    ),
  ),
)
